-- ===== src/Simulation/Results.antt =====
-- What becomes of the results of payments: the batched writer (simln-lib/src/batched_writer.rs),
-- PaymentResultLogger and consume_simulation_results (simln-lib/src/lib.rs). The csv writer is a
-- parameter: `serialize` hands it a record, and `flush` empties its buffer.
use sim_ln.Prelude.{
  ℕ, ◌%◌, Option, none, some, Bool, true, false, List, [], ◌∷◌, Result, ok, err, Method, pure,
  modify, ◌>>◌, ◌==◌, ◌||◌, if◌then◌else◌, add_u64, add_u32,
}
use sim_ln.Network.Types.{PaymentOutcome, success, PaymentResult}
use sim_ln.Simulation.Types.{SimulationError, file_error}

-- `Payment` of the source.
pub record SentPayment : Type 0 where
  pub source : ℕ
  pub destination : ℕ
  pub amount_msat : ℕ
  pub hash : Option ℕ
  pub dispatch_time : ℕ

abbrev pub Row : Type 0
Row = SentPayment × PaymentResult

pub record CsvWriter (W : Type 0) : Type 0 where
  pub serialize : Row → Method W SimulationError (Unit {0})
  pub flush : Method W SimulationError (Unit {0})

pub record BatchedWriter (W : Type 0) : Type 0 where
  pub batch_size : ℕ
  pub counter : ℕ
  pub writer : W

-- `BatchedWriter::new`, for what opening the file gives. The division of `queue` relies on its
-- check: the batch size is never zero.
unfoldable pub new_writer :
    {W : Type 0} → Result W SimulationError → ℕ → Result (BatchedWriter W) SimulationError
new_writer opened batch_size = if batch_size == 0 then err file_error else elim opened [
  | err e ↦ err e
  | ok w ↦ ok (record { batch_size = batch_size; counter = 0; writer = w })
]

pub record PaymentResultLogger : Type 0 where
  pub success_payment : ℕ
  pub failed_payment : ℕ
  pub total_sent : ℕ

abbrev pub new_logger : PaymentResultLogger
new_logger = record { success_payment = 0; failed_payment = 0; total_sent = 0 }

unfoldable pub report_result :
    SentPayment → PaymentOutcome → PaymentResultLogger → PaymentResultLogger
report_result details success l = record {
  success_payment = add_u64 l.success_payment 1;
  failed_payment = l.failed_payment;
  total_sent = add_u64 l.total_sent details.amount_msat;
}
report_result details _ l = record {
  success_payment = l.success_payment;
  failed_payment = add_u64 l.failed_payment 1;
  total_sent = add_u64 l.total_sent details.amount_msat;
}

unfoldable pub total_attempts : PaymentResultLogger → ℕ
total_attempts l = add_u64 l.success_payment l.failed_payment

-- What the consumer waits for: the shutdown, a result, or the end of the channel.
pub data Signal : Type 0 where
  shutdown channel_closed : Signal
  received : Row → Signal

pub data Consumed : Type 0 where
  waiting ended : Consumed

pub record Consumer (W : Type 0) : Type 0 where
  pub logger : PaymentResultLogger
  pub writer : Option (BatchedWriter W)

module _ {W : Type 0} where
  -- A method of the writer, if there is one.
  abbrev pub in_writer :
      Method (BatchedWriter W) SimulationError (Unit {0})
      → Method (Option (BatchedWriter W)) SimulationError (Unit {0})
  in_writer method none = (ok tt, none)
  in_writer method (some b) = let (r, b') = method b in (r, some b')

  unfoldable pub with_writer :
      Method (BatchedWriter W) SimulationError (Unit {0})
      → Method (Consumer W) SimulationError (Unit {0})
  with_writer method c = let (r, w) = in_writer method c.writer in (r, record c { writer = w })

  abbrev pub log_row : Row → Consumer W → Consumer W
  log_row row c = record c { logger = report_result row.0 (row.1).payment_outcome c.logger }

module _ {W : Type 0} (csv : CsvWriter W) where
  unfoldable pub write : Bool → Method (BatchedWriter W) SimulationError (Unit {0})
  write force b =
      if force || (b.batch_size == b.counter)
      then (let (r, w) = csv.flush b.writer in (r, record b { counter = 0; writer = w }))
      else (ok tt, b)

  unfoldable pub queue : Row → Method (BatchedWriter W) SimulationError (Unit {0})
  queue row b =
      let (r, w) = csv.serialize row b.writer in
      elim r [
        | err e ↦ (err e, (write true (record b { writer = w })).1)
        | ok _ ↦
            write false (record b { counter = add_u32 (b.counter % b.batch_size) 1; writer = w })
      ]

  unfoldable pub finish : Method (Consumer W) SimulationError Consumed
  finish = do with_writer (write true); pure ended

  unfoldable pub consume_simulation_results :
      List Signal → Method (Consumer W) SimulationError Consumed
  consume_simulation_results [] = pure waiting
  consume_simulation_results (shutdown ∷ signals) = finish
  consume_simulation_results (channel_closed ∷ signals) = finish
  consume_simulation_results (received row ∷ signals) = do
    modify (log_row row)
    with_writer (queue row)
    consume_simulation_results signals
