-- ===== src/Reliable/Retry.antt =====
-- DelegateMQ/extras/util/RetryMonitor.h and ReliableTransport.h, on top of the TransportMonitor that
-- they use, with DmqHeader of port/transport/common/DmqHeader.h.
-- The transport is a parameter: `send` is ITransport::Send of the transport below, over a state `W`
-- of its own. `Init` has been called, so the pointers are set. Calls are sequential: one returns
-- before the next begins, but for the callbacks that a call makes. Signals are written to a log.
use async_http.Prelude.{
  ℕ, zero, suc, ◌-◌, ◌^◌, Bool, true, false, Option, none, some, List, [], ◌∷◌, ◌++◌, ltb, ◌==◌,
  if◌then◌else◌, length,
}
use async_http.Prelude.Maps.{Map, lookup, insert, erase}
use async_http.Reliable.Monitor.{
  Monitor, TimeoutData, Status, success, timed_out, Added, added, full, key, add, remove, cancel,
  pass, max_timer_expired,
}

pub record DmqHeader : Type 0 where
  pub marker : ℕ
  pub id : ℕ
  pub seq_num : ℕ
  pub length : ℕ

pub record RetryEntry : Type 0 where
  pub packet_data : List ℕ
  pub header : DmqHeader
  pub attempts_remaining : ℕ
  pub is_sent : Bool

-- What clients see: the signals of both monitors, and each call of the transport.
pub data Signal : Type 0 where
  send_status : ℕ → ℕ → Status → Signal
  cap_exceeded : ℕ → Signal
  pending_exceeded : ℕ → Signal
  delivery_failed : ℕ → ℕ → Signal
  transmitted : DmqHeader → List ℕ → Signal

-- A RetryMonitor with the TransportMonitor and the transport that it was given.
pub record Link (W : Type 0) : Type 0 where
  pub monitor : Monitor
  pub retry_store : Map RetryEntry
  pub max_retries : ℕ
  pub wire : W
  pub log : List Signal

-- The bit pattern of the int -1.
abbrev pub minus_one : ℕ
minus_one = 2 ^ 32 - 1

abbrev pub header_key : DmqHeader → ℕ
header_key h = key h.id h.seq_num

abbrev was_added : Added → Bool
was_added added = true
was_added _ = false

module _ {W : Type 0} where
  abbrev emit : Signal → Link W → Link W
  emit e l = record l { log = l.log ++ (e ∷ []) }

  abbrev emit_full : Added → Link W → Link W
  emit_full (full n) l = emit (cap_exceeded n) l
  emit_full _ l = l

  -- `m_monitor->Add` for a header, with the signal that it emits.
  unfoldable pub monitor_add : ℕ → DmqHeader → Link W → Bool × Link W
  unfolding add
  monitor_add now h l =
      let r = add now h.seq_num h.id l.monitor in
      (was_added r.0, emit_full r.0 (record l { monitor = r.1 }))

  abbrev monitor_cancel : DmqHeader → Link W → Link W
  monitor_cancel h l = record l { monitor = (cancel h.seq_num h.id l.monitor).1 }

  -- The end of a message that is given up.
  abbrev abandon : ℕ → ℕ → ℕ → Link W → Link W
  abandon k id seq_num l = record l {
    retry_store = erase k l.retry_store;
    log = l.log ++ (delivery_failed id seq_num ∷ []);
  }

  abbrev mark_sent : ℕ → Link W → Link W
  mark_sent k l = elim (lookup k l.retry_store) [
    | none ↦ l
    | some e ↦ record l { retry_store = insert k (record e { is_sent = true }) l.retry_store }
  ]

  abbrev pub emit_exceeded : Option ℕ → Link W → Link W
  emit_exceeded none l = l
  emit_exceeded (some n) l = emit (pending_exceeded n) l

  module _ (send : List ℕ → DmqHeader → W → ℕ × W) where
    abbrev transport_send : List ℕ → DmqHeader → Link W → ℕ × Link W
    transport_send payload h l =
        let r = send payload h l.wire in
        (r.0, record l { wire = r.1; log = l.log ++ (transmitted h payload ∷ []) })

    -- `SendWithRetry` of a payload, at a time.
    unfoldable pub send_with_retry : ℕ → List ℕ → DmqHeader → Link W → ℕ × Link W
    unfolding monitor_add cancel lookup insert erase
    send_with_retry now payload h l =
        let k = header_key h in
        let entry : RetryEntry = record {
          packet_data = payload;
          header = h;
          attempts_remaining = l.max_retries;
          is_sent = false;
        } in
        let r = monitor_add now h (record l { retry_store = insert k entry l.retry_store }) in
        let sent = transport_send payload h r.1 in
        if r.0
        then (if sent.0 == 0
            then (0, mark_sent k sent.1)
            else (sent.0, abandon k h.id h.seq_num (monitor_cancel h sent.1)))
        else (minus_one, abandon k h.id h.seq_num r.1)

    -- The retransmission at the end of `OnStatusChanged`, outside the lock.
    unfoldable pub retransmit : ℕ → ℕ → ℕ → RetryEntry → Link W → Link W
    unfolding monitor_add cancel lookup insert erase
    retransmit now id seq_num e l =
        let k = key id seq_num in
        let r = monitor_add now e.header l in
        let sent = transport_send e.packet_data e.header r.1 in
        if r.0
        then (if sent.0 == 0 then sent.1 else abandon k id seq_num (monitor_cancel e.header sent.1))
        else abandon k id seq_num r.1

    -- What `OnStatusChanged` does for a timeout of a stored message.
    unfoldable pub on_timeout : ℕ → ℕ → ℕ → RetryEntry → Link W → Link W
    unfolding retransmit
    on_timeout now id seq_num e l =
        let k = key id seq_num in
        let e' = record e { attempts_remaining = e.attempts_remaining - 1 } in
        if ltb 0 e.attempts_remaining
        then (if e.is_sent
            then retransmit now id seq_num e' (record l { retry_store = insert k e' l.retry_store })
            else (monitor_add now e.header l).1)
        else abandon k id seq_num l

    unfoldable pub on_status_changed : ℕ → ℕ → ℕ → Status → Link W → Link W
    unfolding on_timeout lookup erase
    on_status_changed now id seq_num status l =
        let k = key id seq_num in
        elim (lookup k l.retry_store) [
          | none ↦ l
          | some e ↦ elim status [
            | success ↦ record l { retry_store = erase k l.retry_store }
            | timed_out ↦ on_timeout now id seq_num e l
          ]
        ]

    -- OnSendStatus, to which the RetryMonitor is connected.
    unfoldable pub notify : ℕ → Status → ℕ → ℕ → Link W → Link W
    unfolding on_status_changed
    notify now status id seq_num l =
        on_status_changed now id seq_num status (emit (send_status id seq_num status) l)

    -- `TransportMonitor::Remove`, called for an acknowledgement.
    unfoldable pub acknowledge : ℕ → ℕ → ℕ → Link W → Link W
    unfolding remove notify
    acknowledge now seq_num remote_id l =
        let r = remove seq_num remote_id l.monitor in
        elim r.0 [
          | none ↦ l
          | some d ↦ notify now success d.remote_id seq_num (record l { monitor = r.1 })
        ]

    unfoldable pub notify_all : ℕ → List TimeoutData → Link W → Link W
    unfolding notify
    notify_all now [] l = l
    notify_all now (d ∷ ds) l = notify_all now ds (notify now timed_out d.remote_id d.seq_num l)

    -- One round of `TransportMonitor::Process`: a pass under the lock, then its callbacks.
    unfoldable pub process_round : ℕ → Link W → Link W
    unfolding pass notify_all
    process_round now l =
        let p = pass now l.monitor in
        emit_exceeded p.exceeded (notify_all now p.expired (record l { monitor = p.monitor }))

    -- `Process`, with one unit of fuel for a round; `none` means that the fuel ran out.
    unfoldable pub process : ℕ → (ℕ → ℕ) → Link W → Option (Link W)
    unfolding process_round
    process zero clock l = none
    process (suc fuel) clock l =
        let rest = process fuel clock (process_round (clock fuel) l) in
        if length l.monitor.pending == 0
        then some l
        else if length (pass (clock fuel) l.monitor).expired == max_timer_expired
        then rest
        else some (process_round (clock fuel) l)
