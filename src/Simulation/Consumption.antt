-- ===== src/Simulation/Consumption.antt =====
-- All results that the consumer receives are counted and written (simln-lib/src/lib.rs:
-- consume_simulation_results).
use mathlib.Core.List.{append_assoc, append-nil}
use sim_ln.Prelude.{
  ℕ, ◌+◌, ◌%◌, ◌<◌, ◌≡◌, refl, ap, subst, Option, none, some, true, List, [], ◌∷◌, ◌++◌, length,
  Result, ok, err, pure, ◌>>◌, Method, add_u64, u64_mod, arith,
}
use sim_ln.Network.Types.{PaymentOutcome, success}
use sim_ln.Simulation.Types.{SimulationError}
use sim_ln.Simulation.Results.{
  SentPayment, Row, CsvWriter, BatchedWriter, PaymentResultLogger, report_result, Signal, shutdown,
  channel_closed, received, Consumed, waiting, ended, Consumer, write, queue, in_writer,
  with_writer, log_row, finish, consume_simulation_results,
}
use sim_ln.Simulation.Reports.{
  rows_of, CsvLaws, IsBatched, IsFlushed, IfOk, flushed, queue-IsBatched,
}

-- How many of the rows report a success.
abbrev pub is_success : PaymentOutcome → ℕ
is_success success = 1
is_success _ = 0

abbrev pub successes : List Row → ℕ
successes [] = 0
successes (row ∷ rows) = is_success (row.1).payment_outcome + successes rows

abbrev pub amounts_sent : List Row → ℕ
amounts_sent [] = 0
amounts_sent (row ∷ rows) = (row.0).amount_msat + amounts_sent rows

-- The totals of a logger: successes and failures add up to the number of rows.
pub record IsTotal (rows : List Row) (before l : PaymentResultLogger) : Type 0 where
  pub succeeded : l.success_payment ≡ (before.success_payment + successes rows) % u64_mod
  pub failed :
      (l.success_payment + l.failed_payment) % u64_mod
      ≡ (before.success_payment + before.failed_payment + length rows) % u64_mod
  pub sent : l.total_sent ≡ (before.total_sent + amounts_sent rows) % u64_mod

pub record IsU64 (l : PaymentResultLogger) : Type 0 where
  pub success_fits : l.success_payment < u64_mod
  pub sent_fits : l.total_sent < u64_mod

first_row :
    (details : SentPayment) (outcome : PaymentOutcome) (l : PaymentResultLogger)
    → IsU64 l
    → let l' = report_result details outcome l in
      (l'.success_payment ≡ add_u64 l.success_payment (is_success outcome))
      × ((l'.success_payment + l'.failed_payment) % u64_mod
          ≡ (l.success_payment + l.failed_payment + 1) % u64_mod)
      × (l'.total_sent ≡ add_u64 l.total_sent details.amount_msat)
unfolding report_result
first_row details success l h = (refl, omega arith, refl)
first_row details _ l h = (omega (arith, h.success_fits), omega arith, refl)

abbrev log_rows : List Row → PaymentResultLogger → PaymentResultLogger
log_rows [] l = l
log_rows (row ∷ rows) l = log_rows rows (report_result row.0 (row.1).payment_outcome l)

log_rows-IsTotal :
    (rows : List Row) (l : PaymentResultLogger) → IsU64 l → IsTotal rows l (log_rows rows l)
log_rows-IsTotal [] l h = record {
  succeeded = omega (arith, h.success_fits);
  failed = ap (λ n. n % u64_mod) (omega arith);
  sent = omega (arith, h.sent_fits);
}
log_rows-IsTotal (row ∷ rows) l h =
    let l' = report_result row.0 (row.1).payment_outcome l in
    let (s, f, t) = first_row row.0 (row.1).payment_outcome l h in
    let fits : IsU64 l' = record {
      success_fits = omega (arith, s);
      sent_fits = omega (arith, t);
    } in
    let rest = log_rows-IsTotal rows l' fits in
    record {
      succeeded = omega (arith, s, rest.succeeded);
      failed = omega (arith, f, rest.failed);
      sent = omega (arith, t, rest.sent);
    }

module _ {W : Type 0} {csv : CsvWriter W} (laws : CsvLaws csv) where
  -- What holds of the writer, if there is one.
  abbrev pub OfWriter : (BatchedWriter W → Type 0) → Option (BatchedWriter W) → Type 0
  OfWriter P none = Unit
  OfWriter P (some b) = P b

  Logged : List Row → PaymentResultLogger → Result Consumed SimulationError × Consumer W → Type 0
  Logged rows l (ok waiting, c) = (c.logger ≡ l) × OfWriter (IsBatched laws rows) c.writer
  Logged rows l (ok ended, c) = (c.logger ≡ l) × OfWriter (IsFlushed laws rows) c.writer
  Logged rows l (err e, c) = Unit

  -- A method of the writer, and the rest of the block.
  writer_then :
      {B : Type 0} (P Q : BatchedWriter W → Type 0)
      (G : Result B SimulationError × Consumer W → Type 0)
      (method : Method (BatchedWriter W) SimulationError (Unit {0}))
      (rest : Method (Consumer W) SimulationError B) (c : Consumer W)
      → ((b : BatchedWriter W) → P b → IfOk laws Q (method b))
      → ((e : SimulationError) (c' : Consumer W) → G (err e, c'))
      → OfWriter P c.writer
      → ((w : Option (BatchedWriter W)) → OfWriter Q w → G (rest (record c { writer = w })))
      → G ((with_writer method >> rest) c)
  unfolding with_writer
  writer_then P Q G method rest c works fails h continues = go c.writer h
    where
      done :
          (r : Result (Unit {0}) SimulationError × BatchedWriter W)
          → IfOk laws Q r
          → G (((λ (q : Consumer W). (r.0, record c { writer = some r.1 })) >> rest) c)
      done (ok u, b) h = continues (some b) h
      done (err e, b) h = fails e (record c { writer = some b })

      go :
          (w : Option (BatchedWriter W))
          → OfWriter P w
          → G (
              ((λ (q : Consumer W).
                    (let (r, w') = in_writer method w in (r, record c { writer = w' })))
                  >> rest)
                c)
      go none h = continues none tt
      go (some b) h = done (method b) (works b h)

  finish-Logged :
      (before : List Row) (c : Consumer W)
      → OfWriter (IsBatched laws before) c.writer
      → Logged before c.logger (finish csv c)
  unfolding finish Logged
  finish-Logged before c h =
      writer_then (IsBatched laws before) (IsFlushed laws before) (Logged before c.logger)
        (write csv true) (pure ended) c
        (λ b batched. forced b _ (flushed laws before b batched.written)) (λ e c'. tt) h
        (λ w done. (refl, done))
    where
      forced :
          (b : BatchedWriter W) (r : Result (Unit {0}) SimulationError × BatchedWriter W)
          → IfOk laws
              (λ b'. IsFlushed laws before b' × (b'.counter ≡ 0) × (b'.batch_size ≡ b.batch_size))
              r
          → IfOk laws (IsFlushed laws before) r
      forced b (ok u, b') h = h.0
      forced b (err e, b') h = tt

  consume-Logged :
      (before : List Row) (signals : List Signal) (c : Consumer W)
      → OfWriter (IsBatched laws before) c.writer
      → Logged
          (before ++ rows_of signals)
          (log_rows (rows_of signals) c.logger)
          (consume_simulation_results csv signals c)
  unfolding consume_simulation_results Logged
  consume-Logged before [] c h = (refl, rw (append-nil before) h)
  consume-Logged before (shutdown ∷ signals) c h = rw (append-nil before) (finish-Logged before c h)
  consume-Logged before (channel_closed ∷ signals) c h =
      rw (append-nil before) (finish-Logged before c h)
  consume-Logged before (received row ∷ signals) c h =
      writer_then (IsBatched laws before) (IsBatched laws (before ++ row ∷ []))
        (Logged (before ++ row ∷ rows_of signals) (log_rows (row ∷ rows_of signals) c.logger))
        (queue csv row) (consume_simulation_results csv signals) (log_row row c)
        (queue-IsBatched laws before row) (λ e c'. tt) h
        (λ w kept.
          subst
            (λ (rows : List Row).
              Logged rows (log_rows (row ∷ rows_of signals) c.logger)
                (consume_simulation_results csv signals (record (log_row row c) { writer = w })))
            (append_assoc before (row ∷ []) (rows_of signals))
            (consume-Logged (before ++ row ∷ []) signals (record (log_row row c) { writer = w })
              kept))

  -- What the consumer promises for the results it receives and the rows written before.
  abbrev pub Kept :
      List Row
      → List Row
      → PaymentResultLogger
      → Result Consumed SimulationError × Consumer W
      → Type 0
  Kept before rows l (ok waiting, c) =
      IsTotal rows l c.logger × OfWriter (IsBatched laws (before ++ rows)) c.writer
  Kept before rows l (ok ended, c) =
      IsTotal rows l c.logger × OfWriter (IsFlushed laws (before ++ rows)) c.writer
  Kept before rows l (err e, c) = Unit

  Logged-Kept :
      (before rows : List Row) (l : PaymentResultLogger)
      (r : Result Consumed SimulationError × Consumer W)
      → IsTotal rows l (log_rows rows l)
      → Logged (before ++ rows) (log_rows rows l) r
      → Kept before rows l r
  unfolding Logged
  Logged-Kept before rows l (ok waiting, c) total h = (rw h.0 total, h.1)
  Logged-Kept before rows l (ok ended, c) total h = (rw h.0 total, h.1)
  Logged-Kept before rows l (err e, c) total h = tt

  -- For a csv writer as documented, a consumer whose writer risks less than a batch, and any
  -- results that it receives: unless it fails, the successes and the amounts are counted modulo
  -- 2^64, every result counts as a success or a failure, and if results are written then every
  -- one of them is, in order. While it waits less than a batch is unflushed; once it has ended,
  -- by the shutdown or the end of the channel, nothing is.
  pub consume_simulation_results-Kept :
      (before : List Row) (signals : List Signal) (c : Consumer W)
      → IsU64 c.logger
      → OfWriter (IsBatched laws before) c.writer
      → Kept before (rows_of signals) c.logger (consume_simulation_results csv signals c)
  consume_simulation_results-Kept before signals c fits h =
      Logged-Kept before (rows_of signals) c.logger (consume_simulation_results csv signals c)
        (log_rows-IsTotal (rows_of signals) c.logger fits) (consume-Logged before signals c h)
