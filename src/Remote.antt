-- ===== src/Remote.antt =====
-- DelegateMQ/delegate/DelegateRemote.h: a remote delegate of one argument, which the sender serializes
-- and dispatches, and the receiver reads back and calls. The serializer is a parameter, over messages
-- `V`: what a write makes of a stream and a read of the bytes, an exception included. `transport` is the
-- transport below the dispatcher, of Wire/Dispatch.antt. A stream is its content and whether it is
-- good.
pub mod Reports
pub mod Stuck
use async_http.Prelude.{
  ℕ, Bool, true, false, Option, none, some, List, [], ◌∷◌, ◌++◌, not, ◌==◌, if◌then◌else◌,
}
use async_http.Http.{Bytes}
use async_http.Reliable.Retry.{DmqHeader}
use async_http.Wire.Dispatch.{Dispatcher, dispatch}

pub data DelegateError : Type 0 where
  success err_stream_not_good err_no_serializer err_serialize err_deserialize : DelegateError
  err_deserialize_exception err_no_dispatcher err_dispatch err_type_mismatch : DelegateError
  err_transport_receive err_capacity_exceeded : DelegateError

pub record Stream : Type 0 where
  pub content : Bytes
  pub good : Bool

-- What ISerializer::Write leaves: the stream, and whether it threw.
pub record Written : Type 0 where
  pub stream : Stream
  pub threw : Bool

-- What ISerializer::Read gives: the message, a stream that has failed, or an exception.
pub data Read (V : Type 0) : Type 0 where
  got : V → Read V
  failed threw : Read V

pub record Serializer (V : Type 0) : Type 0 where
  pub write : V → Stream → Written
  pub read : Bytes → Read V

-- A call of the error handler.
pub record Report : Type 0 where
  pub id : ℕ
  pub error : DelegateError
  pub aux : ℕ

-- RemoteDispatchState with the serializer of its delegate; a pointer is whether it is set.
pub record Remote (V : Type 0) : Type 0 where
  pub id : ℕ
  pub last_seq_num : ℕ
  pub has_handler : Bool
  pub has_dispatcher : Bool
  pub error : DelegateError
  pub stream : Option Stream
  pub serializer : Option (Serializer V)

-- What a call leaves: the calls of the error handler in their order, and whether it threw.
pub record Sent (V W : Type 0) : Type 0 where
  pub remote : Remote V
  pub dispatcher : Dispatcher W
  pub reports : List Report
  pub threw : Bool

pub record Invoked (V : Type 0) : Type 0 where
  pub result : Bool
  pub remote : Remote V
  pub reports : List Report
  pub call : Option V
  pub threw : Bool

module _ {V : Type 0} where
  -- GetError
  unfoldable pub get_error : Remote V → DelegateError × Remote V
  get_error r = (r.error, record r { error = success })

  -- RaiseError: the reports, and whether it throws.
  unfoldable pub raise_reports : DelegateError → ℕ → Remote V → List Report
  raise_reports e aux r =
      if r.has_handler then record { id = r.id; error = e; aux = aux } ∷ [] else []

  abbrev pub set_error : DelegateError → Remote V → Remote V
  set_error e r = record r { error = e }

  -- RaiseSuccess
  unfoldable pub success_reports : Remote V → List Report
  success_reports r =
      if r.has_handler then record { id = r.id; error = success; aux = 0 } ∷ [] else []

  module _ {W : Type 0} (transport : Bytes → DmqHeader → W → ℕ × W) where
    unfoldable pub raise_error : DelegateError → ℕ → Remote V → Dispatcher W → Sent V W
    unfolding raise_reports
    raise_error e aux r d = record {
      remote = set_error e r;
      dispatcher = d;
      reports = raise_reports e aux r;
      threw = not r.has_handler;
    }

    -- The dispatch: Dispatch empties a stream that it has sent, and sets the sequence number. A throw
    -- for a missing handler is caught, and RaiseError throws again.
    unfoldable pub dispatch_stream : Stream → Remote V → Dispatcher W → Sent V W
    unfolding dispatch raise_error success_reports
    dispatch_stream s r d =
        let x = dispatch transport s.content r.id d in
        let kept = record r {
          stream = some (record { content = x.stream; good = true });
          last_seq_num = elim x.out_seq_num [ none ↦ r.last_seq_num | some seq ↦ seq ];
        } in
        if x.result == 0
        then record {
          remote = kept;
          dispatcher = x.dispatcher;
          reports = success_reports kept;
          threw = false;
        }
        else raise_error err_dispatch x.result kept x.dispatcher

    -- SendSerialized
    unfoldable pub send_serialized : Bool → Remote V → Dispatcher W → Sent V W
    unfolding dispatch_stream raise_error
    send_serialized write_failed r d =
        if write_failed
        then record { remote = r; dispatcher = d; reports = []; threw = false }
        else elim r.stream [
          | none ↦ raise_error err_stream_not_good 0 r d
          | some s ↦
              if not s.good
              then raise_error err_stream_not_good 0 r d
              else if not r.has_dispatcher
              then raise_error err_no_dispatcher 0 r d
              else dispatch_stream s r d
        ]

    -- What follows the write: the report of an exception comes first, and its throw ends the call.
    unfoldable pub after_write : Written → Remote V → Dispatcher W → Sent V W
    unfolding send_serialized raise_error
    after_write w r d =
        let kept = record r { stream = some w.stream } in
        let x = raise_error err_serialize 0 kept d in
        let y = send_serialized true x.remote x.dispatcher in
        if not w.threw
        then send_serialized false kept d
        else if x.threw
        then x
        else (record y { reports = x.reports ++ y.reports })

    -- operator(), which AsyncInvoke calls.
    unfoldable pub send : V → Remote V → Dispatcher W → Sent V W
    unfolding after_write raise_error
    send v r d = elim r.serializer [
      | none ↦ raise_error err_no_serializer 0 r d
      | some z ↦ elim r.stream [
        | none ↦ raise_error err_no_serializer 0 r d
        | some s ↦ after_write (z.write v s) r d
      ]
    ]

  unfoldable pub refuse : DelegateError → Bool → Remote V → Invoked V
  unfolding raise_reports
  refuse e result r = record {
    result = result;
    remote = set_error e r;
    reports = raise_reports e 0 r;
    call = none;
    threw = not r.has_handler;
  }

  -- Invoke: the message is read and the target called with it.
  unfoldable pub invoke : Stream → Remote V → Invoked V
  unfolding refuse
  invoke is r = elim r.serializer [
    | none ↦ refuse err_no_serializer false r
    | some z ↦
        if not is.good then refuse err_stream_not_good false r else elim (z.read is.content) [
          | got v ↦ record { result = true; remote = r; reports = []; call = some v; threw = false }
          | failed ↦ refuse err_deserialize true r
          | threw ↦ refuse err_deserialize_exception true r
        ]
  ]
