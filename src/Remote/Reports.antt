-- ===== src/Remote/Reports.antt =====
-- What a remote delegate tells its error handler of a call, and what goes to the transport.
use async_http.Prelude.{
  ℕ, Bool, true, false, not, Option, none, some, List, [], ◌∷◌, ◌≡◌, refl, ◌==◌, ==_iff, inl, inr,
  sym, subst, arith, Bool-cases, Option-cases, if◌then◌else◌,
}
use async_http.Http.{Bytes}
use async_http.Reliable.Retry.{DmqHeader, minus_one}
use async_http.Wire.Frame.{new_header}
use async_http.Wire.Dispatch.{Dispatcher, dispatch}
use async_http.Remote.{
  DelegateError, success, err_stream_not_good, err_no_serializer, err_serialize, err_no_dispatcher,
  err_dispatch, Written, Report, Remote, Sent, raise_reports, success_reports, raise_error,
  dispatch_stream, send_serialized, after_write, send,
}

abbrev one_report : ℕ → DelegateError → ℕ → List Report
one_report id e aux = record { id = id; error = e; aux = aux } ∷ []

-- What the serializer writes of a message, if there is a serializer and a stream.
abbrev pub written : {V : Type 0} → V → Remote V → Option Written
written v r = elim r.serializer [
  | none ↦ none
  | some z ↦ elim r.stream [ none ↦ none | some s ↦ some (z.write v s) ]
]

-- What stands in the way of a dispatch, the first thing first.
abbrev pub obstacle : Option Written → Bool → Option DelegateError
obstacle none has_dispatcher = some err_no_serializer
obstacle (some w) has_dispatcher =
    if w.threw
    then some err_serialize
    else if not w.stream.good
    then some err_stream_not_good
    else if not has_dispatcher
    then some err_no_dispatcher
    else none

module _ {V W : Type 0} (transport : Bytes → DmqHeader → W → ℕ × W) where
  -- The transport gets the bytes that were written, under the next sequence number, and answers so.
  pub record IsTaken (o : Option Written) (id : ℕ) (d : Dispatcher W) (answer : ℕ) (x : Sent V W)
      : Type 0 where
    pub written_bytes : Written
    pub are_written : o ≡ some written_bytes
    pub is_set : d.has_transport ≡ true
    pub answered :
        (transport written_bytes.stream.content (new_header id d.next_seq_num) d.below).0 ≡ answer
    pub left :
        x.dispatcher.below
        ≡ (transport written_bytes.stream.content (new_header id d.next_seq_num) d.below).1
    pub numbered : x.remote.last_seq_num ≡ d.next_seq_num

  -- One report of how the call went, with the reason for it. An error stays.
  pub data IsAnswered (o : Option Written) (has_dispatcher : Bool) (id : ℕ) (d : Dispatcher W)
      (x : Sent V W) : Type 0 where
    accepted :
        obstacle o has_dispatcher ≡ none
        → IsTaken o id d 0 x
        → x.reports ≡ one_report id success 0
        → x.threw ≡ false
        → IsAnswered o has_dispatcher id d x
    refused :
        (answer : ℕ)
        → obstacle o has_dispatcher ≡ none
        → answer == 0 ≡ false
        → IsTaken o id d answer x
        → x.reports ≡ one_report id err_dispatch answer
        → x.remote.error ≡ err_dispatch
        → x.threw ≡ false
        → IsAnswered o has_dispatcher id d x
    no_transport :
        obstacle o has_dispatcher ≡ none
        → d.has_transport ≡ false
        → x.dispatcher ≡ d
        → x.reports ≡ one_report id err_dispatch minus_one
        → x.remote.error ≡ err_dispatch
        → x.threw ≡ false
        → IsAnswered o has_dispatcher id d x
    unsent :
        (e : DelegateError)
        → obstacle o has_dispatcher ≡ some e
        → x.dispatcher ≡ d
        → x.reports ≡ one_report id e 0
        → x.remote.error ≡ e
        → x.threw ≡ false
        → IsAnswered o has_dispatcher id d x

  to :
      {o p : Option Written} {has_dispatcher : Bool} {id : ℕ} {d : Dispatcher W} {x y : Sent V W}
      → o ≡ p
      → x ≡ y
      → IsAnswered p has_dispatcher id d y
      → IsAnswered o has_dispatcher id d x
  to {o} {p} {has_dispatcher} {id} {d} {x} {y} e f a =
      subst (λ q. IsAnswered q has_dispatcher id d x) (sym e)
        (subst (IsAnswered p has_dispatcher id d) (sym f) a)

  raise_error-IsAnswered :
      (e : DelegateError) (o : Option Written) (r : Remote V) (d : Dispatcher W)
      → obstacle o r.has_dispatcher ≡ some e
      → r.has_handler ≡ true
      → IsAnswered o r.has_dispatcher r.id d (raise_error transport e 0 r d)
  unfolding raise_error raise_reports
  raise_error-IsAnswered e o r d n h = unsent e n refl (ground (arith, h)) refl (ground (arith, h))

  dispatch_stream-IsAnswered :
      (w : Written) (r : Remote V) (d : Dispatcher W)
      → obstacle (some w) r.has_dispatcher ≡ none
      → r.has_handler ≡ true
      → IsAnswered (some w) r.has_dispatcher r.id d (dispatch_stream transport w.stream r d)
  unfolding dispatch_stream dispatch success_reports raise_error raise_reports
  dispatch_stream-IsAnswered w r d n h = elim (Bool-cases d.has_transport) [
    | inr off ↦
        no_transport n off (ground (arith, off)) (ground (arith, h, off)) (ground (arith, h, off))
          (ground (arith, h, off))
    | inl on ↦
        let t = transport w.stream.content (new_header r.id d.next_seq_num) d.below in
        let x = dispatch_stream transport w.stream r d in
        let taken : (answer : ℕ) → t.0 ≡ answer → IsTaken (some w) r.id d answer x = λ answer e.
          record {
            written_bytes = w;
            are_written = refl;
            is_set = on;
            answered = e;
            left = ground (arith, on);
            numbered = ground (arith, on);
          } in
        elim (Bool-cases (t.0 == 0)) [
          | inl ok ↦
              accepted n (taken 0 ((==_iff t.0 0).0 ok)) (ground (arith, h, on, ok))
                (ground (arith, on, ok))
          | inr bad ↦
              refused t.0 n bad (taken t.0 refl) (ground (arith, h, on, bad))
                (ground (arith, h, on, bad)) (ground (arith, h, on, bad))
        ]
  ]

  after_write-IsAnswered :
      (w : Written) (r : Remote V) (d : Dispatcher W)
      → r.has_handler ≡ true
      → IsAnswered (some w) r.has_dispatcher r.id d (after_write transport w r d)
  unfolding after_write send_serialized raise_error raise_reports
  after_write-IsAnswered w r d h =
      let kept : Remote V = record r { stream = some w.stream } in
      let raised : (e : DelegateError)
          → obstacle (some w) r.has_dispatcher ≡ some e
          → IsAnswered (some w) r.has_dispatcher r.id d (raise_error transport e 0 kept d) =
        λ e n. raise_error-IsAnswered e (some w) kept d n h in
      elim (Bool-cases w.threw) [
        | inl e ↦
            unsent err_serialize (ground (arith, e)) (ground (arith, e)) (ground (arith, e, h))
              (ground (arith, e, h)) (ground (arith, e, h))
        | inr e ↦ elim (Bool-cases w.stream.good) [
          | inr bad ↦
              to refl (ground (arith, e, bad)) (raised err_stream_not_good (ground (arith, e, bad)))
          | inl good ↦ elim (Bool-cases r.has_dispatcher) [
            | inr off ↦
                to refl (ground (arith, e, good, off))
                  (raised err_no_dispatcher (ground (arith, e, good, off)))
            | inl on ↦
                to refl (ground (arith, e, good, on))
                  (dispatch_stream-IsAnswered w kept d (ground (arith, e, good, on)) h)
          ]
        ]
      ]

  -- A send by a remote delegate that has an error handler calls the handler once and throws
  -- nothing. It reports the first thing in its way, with which nothing goes to the dispatcher: no
  -- serializer or stream (ERR_NO_SERIALIZER), a write that threw (ERR_SERIALIZE) or left the stream
  -- failed (ERR_STREAM_NOT_GOOD), no dispatcher (ERR_NO_DISPATCHER). Without any, it reports
  -- ERR_DISPATCH if there is no transport; and otherwise the transport gets the bytes that the
  -- serializer wrote, under the next sequence number, which the delegate keeps, and it reports
  -- success if the transport answers 0, and ERR_DISPATCH with the answer if not. An error that is
  -- reported is the one that the delegate keeps.
  pub send-IsAnswered :
      (v : V) (r : Remote V) (d : Dispatcher W)
      → r.has_handler ≡ true
      → IsAnswered (written v r) r.has_dispatcher r.id d (send transport v r d)
  unfolding send
  send-IsAnswered v r d h =
      let none_set = raise_error-IsAnswered err_no_serializer none r d refl h in
      elim (Option-cases r.serializer) [
        | inl absent ↦ to (ground (arith, absent)) (ground (arith, absent)) none_set
        | inr z ↦ elim (Option-cases r.stream) [
          | inl absent ↦ to (ground (arith, z.1, absent)) (ground (arith, z.1, absent)) none_set
          | inr s ↦
              to (ground (arith, z.1, s.1)) (ground (arith, z.1, s.1))
                (after_write-IsAnswered (z.0.write v s.0) r d h)
        ]
      ]
