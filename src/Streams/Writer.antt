-- ===== src/Streams/Writer.antt =====
-- my-grpc-extensions/src/streamed_response_writer.rs and server_stream_result.rs: the streams that
-- a server fills itself. The writer and its producers share one channel, so a call gives what the
-- channel is behind it.
pub mod Written
pub mod Unread
use my_grpc_extensions.Prelude.{
  ℕ, List, [], ◌∷◌, ◌++◌, Option, none, some, Bytes, Result, ok, err, ◌≡◌, codes, Timed, elapsed,
  finished,
}
use my_grpc_extensions.Streams.ServerStreams.{SendTimeoutError, appended}

-- tokio::sync::mpsc with a timeout of its own for each send. `accepted` is what was put into the
-- channel, in order: a message exactly if its send succeeds. What the receiver has not taken from the
-- front of that when it hangs up, it never gets. `send_within` is `timeout(time, sender.send(...))`, whose
-- error is a closed channel, and the other fields are the texts that `{:?}` makes.
pub record Sender (M : Type 0) : Type 1 where
  pub Chan : Type 0
  pub channel : ℕ → Chan
  pub accepted : Chan → List M
  pub send_timeout : M → ℕ → Chan → Option SendTimeoutError × Chan
  pub send_within : M → ℕ → Chan → Timed (Result (Unit {0}) (Unit {0})) × Chan
  pub debug_error : SendTimeoutError → Bytes
  pub debug_duration : ℕ → Bytes
  pub debug_closed : Bytes
  pub accepted-channel : (size : ℕ) → accepted (channel size) ≡ []
  pub accepted-send_timeout :
      (m : M) (time : ℕ) (c : Chan)
      → accepted (send_timeout m time c).1 ≡ appended (send_timeout m time c).0 m (accepted c)

module _ {Status TResult : Type 0} (tx : Sender (Result TResult Status)) where
  open tx use {Chan}

  -- StreamedResponseWriter, with its timeout in seconds; `StreamedResponseProducer` is the same
  -- record.
  pub record StreamedResponseWriter : Type 0 where
    pub chan : Chan
    pub time_out : ℕ

  -- StreamedResponseWriter::new; the panic of mpsc::channel for a `channel_size` of 0, or of more than
  -- Semaphore::MAX_PERMITS, is left out
  unfoldable pub new_writer : ℕ → StreamedResponseWriter
  new_writer channel_size = record { chan = tx.channel channel_size; time_out = 10 }

  unfoldable pub set_writer_timeout : StreamedResponseWriter → ℕ → StreamedResponseWriter
  set_writer_timeout self time_out = record self { time_out = time_out }

  -- the `unwrap` of a send: `none` is its panic
  unfoldable pub unwrap_sent :
      Option SendTimeoutError × Chan → StreamedResponseWriter → Option StreamedResponseWriter
  unwrap_sent (none, c) self = some (record self { chan = c })
  unwrap_sent (some e, c) self = none

  -- StreamedResponseWriter::send
  unfoldable pub write : StreamedResponseWriter → TResult → Option StreamedResponseWriter
  unfolding unwrap_sent
  write self itm = unwrap_sent (tx.send_timeout (ok itm) self.time_out self.chan) self

  -- send_error, of the writer and of a producer
  unfoldable pub write_error : StreamedResponseWriter → Status → Option StreamedResponseWriter
  unfolding unwrap_sent
  write_error self status = unwrap_sent (tx.send_timeout (err status) self.time_out self.chan) self

  -- get_stream_producer: a producer has the writer's channel and its timeout
  unfoldable pub get_stream_producer : StreamedResponseWriter → StreamedResponseWriter
  get_stream_producer self = record { chan = self.chan; time_out = self.time_out }

  -- StreamedResponseWriter::get_result hands the receiving end of the channel to tonic. It consumes
  -- the writer, and nothing else takes `rx`, so that its panic is never reached.
  unfoldable pub get_result : StreamedResponseWriter → Chan
  get_result self = self.chan

  answer : Option SendTimeoutError → Result (Unit {0}) Bytes
  answer none = ok tt
  answer (some e) = err (tx.debug_error e)

  -- StreamedResponseProducer::send
  unfoldable pub produce :
      StreamedResponseWriter → TResult → Result (Unit {0}) Bytes × StreamedResponseWriter
  unfolding answer
  produce self item =
      let (result, c) = tx.send_timeout (ok item) self.time_out self.chan in
      (answer result, record self { chan = c })

  -- The calls on a writer and its producers, one after the other.
  pub data Write : Type 0 where
    writes produces : TResult → Write
    fails : Status → Write

  unfoldable pub write_step : Write → StreamedResponseWriter → Option StreamedResponseWriter
  unfolding write write_error produce
  write_step (writes itm) self = write self itm
  write_step (produces item) self = some (produce self item).1
  write_step (fails status) self = write_error self status

  -- up to the first panic
  unfoldable pub write_all : List Write → StreamedResponseWriter → Option StreamedResponseWriter
  unfolding write_step
  write_all [] self = some self
  write_all (w ∷ ws) self = elim (write_step w self) [ none ↦ none | some next ↦ write_all ws next ]

-- server_stream_result.rs: GrpcServerStreamResult::send
module _ {Status TModel : Type 0} (tx : Sender (Result TModel Status)) where
  timed_answer : ℕ → Timed (Result (Unit {0}) (Unit {0})) → Result (Unit {0}) Bytes
  timed_answer timeout elapsed = err (codes "Timeout: " ++ tx.debug_duration timeout)
  timed_answer timeout (finished (ok u)) = ok tt
  timed_answer timeout (finished (err u)) = err (codes "Send Error: " ++ tx.debug_closed)

  unfoldable pub send_model : ℕ → TModel → tx.Chan → Result (Unit {0}) Bytes × tx.Chan
  unfolding timed_answer
  send_model timeout item c =
      let (result, c') = tx.send_within (ok item) timeout c in (timed_answer timeout result, c')

  pub record GrpcServerStreamResult : Type 0 where
    pub chan : tx.Chan
    pub timeout : ℕ

  -- GrpcServerStreamResult::new, with its timeout in seconds
  unfoldable pub new_result : GrpcServerStreamResult
  new_result = record { chan = tx.channel 32768; timeout = 3 }

  unfoldable pub set_result_timeout : GrpcServerStreamResult → ℕ → GrpcServerStreamResult
  set_result_timeout self timeout = record self { timeout = timeout }

  unfoldable pub send_result :
      GrpcServerStreamResult → TModel → Result (Unit {0}) Bytes × GrpcServerStreamResult
  unfolding send_model
  send_result self item =
      let (result, c) = send_model self.timeout item self.chan in (result, record self { chan = c })
