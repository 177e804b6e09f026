-- ===== src/Network/Intercept.antt =====
-- `handle_intercepted_htlc` of simln-lib/src/sim_node.rs. The interceptors run as tasks: in which
-- order they finish, whether a task dies and when a shutdown signal comes is the schedule's choice.
use sim_ln.Prelude.{
  ℕ, Bool, true, false, ◌&&◌, Option, none, some, List, [], ◌∷◌, map, String, Result, ok, err, ◌==◌,
  if◌then◌else◌, lookup, insert,
}
use sim_ln.Channel.Types.{
  ForwardingError, CriticalError, interceptor_error, duplicate_custom_record,
}
use sim_ln.Network.Types.{CustomRecords, InterceptRequest, InterceptAnswer, Interceptor}

-- What the `select!` of the loop sees: a task that is done, a task that died, or the signal.
pub data Event : Type 0 where
  joined : InterceptAnswer → Event
  join_error : String → Event
  shutdown : Event

-- The schedule turns the tasks that were spawned for a request into what the loop sees.
abbrev pub Schedule : Type 0
Schedule = InterceptRequest → List InterceptAnswer → List Event

abbrev pub bytes_eq : List ℕ → List ℕ → Bool
bytes_eq [] [] = true
bytes_eq [] (y ∷ ys) = false
bytes_eq (x ∷ xs) [] = false
bytes_eq (x ∷ xs) (y ∷ ys) = x == y && bytes_eq xs ys

-- The records of one interceptor join the ones attached so far.
unfoldable pub merge_records : CustomRecords → CustomRecords → Result CustomRecords CriticalError
merge_records [] attached = ok attached
merge_records ((k, v) ∷ records) attached = elim (lookup k attached) [
  | none ↦ merge_records records (insert k v attached)
  | some existing ↦
      if bytes_eq existing v
      then merge_records records attached
      else err (duplicate_custom_record k)
]

-- The answer once the loop is left.
abbrev pub conclude : CustomRecords → Option ForwardingError → InterceptAnswer
conclude attached none = ok (ok attached)
conclude attached (some e) = ok (err e)

-- The loop 'get_resp. When the signal comes, the tasks that still run are waited for and ignored.
unfoldable pub get_resp : List Event → CustomRecords → Option ForwardingError → InterceptAnswer
get_resp [] attached failure = conclude attached failure
get_resp (shutdown ∷ events) attached failure = conclude attached failure
get_resp (join_error e ∷ events) attached failure = err (interceptor_error e)
get_resp (joined (err e) ∷ events) attached failure = err e
get_resp (joined (ok (err e)) ∷ events) attached failure = get_resp events attached (some e)
get_resp (joined (ok (ok records)) ∷ events) attached failure =
    elim (merge_records records attached) [
      | err e ↦ err e
      | ok attached' ↦ get_resp events attached' failure
    ]

unfoldable pub handle_intercepted_htlc :
    Schedule → List Interceptor → InterceptRequest → InterceptAnswer
handle_intercepted_htlc schedule [] request = ok (ok request.incoming_custom_records)
handle_intercepted_htlc schedule (i ∷ is) request =
    get_resp (schedule request (map (λ (x : Interceptor). x.intercept_htlc request) (i ∷ is))) []
      none
