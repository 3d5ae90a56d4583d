-- ===== src/Ffm/Waiting/Get.antt =====
-- The invariant of all queues at `wt_ffm_get`.
use wolf_trust_fork.Base.{ℕ, ◌<◌, ◌≡◌, ◌⊎◌, true, false, List, [], ◌∷◌, ℤ, update}
use wolf_trust_fork.Ffm.State.{
  Runtime, ok, psa_error_does_not_exist, psa_error_programmer_error, FfmError, err,
}
use wolf_trust_fork.Ffm.Handle.{make_handle, message_type}
use wolf_trust_fork.Ffm.Lookup.{find_partition}
use wolf_trust_fork.Ffm.Service.{Got, PsaMsg, got, got_none, serves}
use wolf_trust_fork.Ffm.Waiting.{Waiting}

-- The `psa_msg_t` of message `m` before the step: its type and client, its handle, the rhandle of its
-- connection, and the sizes of its vectors.
pub record Describes (r : Runtime) (m : ℕ) (x : PsaMsg) : Type 0 where
  type : x.type ≡ (r.messages m).type
  client : x.client_id ≡ (r.messages m).caller
  handle : x.handle ≡ make_handle message_type m (r.messages m).generation
  rhandle : x.rhandle ≡ (r.connections (r.messages m).connection_index).rhandle
  in_size : x.in_size ≡ (r.messages m).in_size
  out_size : x.out_size ≡ (r.messages m).out_size

-- Message `m` is handed over from the queue of service `s`, which has the others then.
abbrev pub Handed : Runtime → (ℕ → List ℕ) → ℕ → Runtime → PsaMsg → Type 0
Handed r queues s taken x =
    (m : ℕ) × (q : List ℕ) × (s < r.service_count)
    × (queues s ≡ m ∷ q)
    × Describes r m x
    × ((taken.messages m).active ≡ true)
    × Waiting taken (update queues s q)

-- What taking from the queue of service `s` comes to
abbrev pub Taken : Runtime → (ℕ → List ℕ) → ℕ → Got → Type 0
Taken r queues s (got_none status) =
    Waiting r queues × (status ≡ psa_error_does_not_exist) × (queues s ≡ [])
Taken r queues s (got taken x m) = Handed r queues s taken x

-- No service of partition `p` with that signal, or one whose queue is empty
abbrev pub NoMessage : Runtime → (ℕ → List ℕ) → ℕ → ℕ → Type 0
NoMessage r queues p signal =
    ((s : ℕ) → s < r.service_count → serves r p signal s ≡ false)
    ⊎ ((s : ℕ) × ((r.services s).partition_index ≡ p)
        × ((r.services s).descriptor.signal ≡ signal)
        × (queues s ≡ []))

-- A status leaves the queues as they were: a programmer error for no signal or an unknown partition, and
-- else that there is no message. A message that is got comes from a service of that partition with that
-- signal.
abbrev pub Served : Runtime → (ℕ → List ℕ) → ℤ → ℕ → Got → Type 0
Served r queues partition_id signal (got_none status) =
    Waiting r queues
    × ((status ≡ psa_error_programmer_error)
          × ((signal ≡ 0) ⊎ ((e : FfmError) × (find_partition r partition_id ≡ err e)))
        ⊎ (status ≡ psa_error_does_not_exist)
          × ((p : ℕ) × (find_partition r partition_id ≡ ok p) × NoMessage r queues p signal))
Served r queues partition_id signal (got taken x m) =
    (p : ℕ) × (s : ℕ) × (find_partition r partition_id ≡ ok p)
    × ((r.services s).partition_index ≡ p)
    × ((r.services s).descriptor.signal ≡ signal)
    × Handed r queues s taken x
