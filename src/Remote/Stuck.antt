-- ===== src/Remote/Stuck.antt =====
-- A remote delegate whose stream has failed, and a series of sends.
use async_http.Prelude.{ℕ, true, false, some, List, [], ◌∷◌, ◌++◌, ◌≡◌, refl, map, arith}
use async_http.Http.{Bytes}
use async_http.Reliable.Retry.{DmqHeader}
use async_http.Wire.Dispatch.{Dispatcher}
use async_http.Remote.{
  err_stream_not_good, Stream, Serializer, Report, Remote, raise_reports, raise_error, set_error,
  send_serialized, after_write, send,
}

-- A stream that has failed takes nothing more, and nothing is thrown: what std::ostream does.
abbrev pub LeavesFailed : {V : Type 0} → Serializer V → Type 0
LeavesFailed {V} z =
    (v : V) (s : Stream) → s.good ≡ false → z.write v s ≡ record { stream = s; threw = false }

module _ {V W : Type 0} (transport : Bytes → DmqHeader → W → ℕ × W) where
  -- A series of sends: the reports and the dispatcher that they leave.
  unfoldable pub send_all : List V → Remote V → Dispatcher W → List Report × Dispatcher W
  unfolding send
  send_all [] r d = ([], d)
  send_all (v ∷ vs) r d =
      let x = send transport v r d in
      let rest = send_all vs x.remote x.dispatcher in (x.reports ++ rest.0, rest.1)

  stuck_report : Remote V → Report
  stuck_report r = record { id = r.id; error = err_stream_not_good; aux = 0 }

  send_failed :
      (z : Serializer V) (s : Stream) (v : V) (r : Remote V) (d : Dispatcher W)
      → LeavesFailed z
      → s.good ≡ false
      → r.serializer ≡ some z
      → r.stream ≡ some s
      → r.has_handler ≡ true
      → send transport v r d ≡ record {
        remote = set_error err_stream_not_good r;
        dispatcher = d;
        reports = stuck_report r ∷ [];
        threw = false;
      }
  unfolding send after_write send_serialized raise_error raise_reports stuck_report
  send_failed z s v r d law bad here stream handler =
      ground (arith, law v s bad, bad, here, stream, handler)

  -- Once the stream of a remote delegate has failed, with a handler and a serializer that are set,
  -- every send reports that the stream is not good, and none reaches the dispatcher. The writes of the
  -- serializer do nothing to a stream that has failed.
  pub send_all_stuck :
      (z : Serializer V) (s : Stream) (vs : List V) (r : Remote V) (d : Dispatcher W)
      → LeavesFailed z
      → s.good ≡ false
      → r.serializer ≡ some z
      → r.stream ≡ some s
      → r.has_handler ≡ true
      → send_all vs r d
        ≡ (map (λ v. record { id = r.id; error = err_stream_not_good; aux = 0 }) vs, d)
  unfolding send_all stuck_report
  send_all_stuck z s [] r d law bad here stream handler = refl
  send_all_stuck z s (v ∷ vs) r d law bad here stream handler = ground (
    arith,
    send_failed z s v r d law bad here stream handler,
    send_all_stuck z s vs (set_error err_stream_not_good r) d law bad here stream handler,
  )
