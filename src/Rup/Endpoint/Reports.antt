-- ===== src/Rup/Endpoint/Reports.antt =====
-- What the engine's tasks and the socket report to a CRupEndpoint, as one function, and that it
-- handles it.
use smart_net.Base.{
  ◌+◌, ◌%◌, ◌^◌, ℤ, true, false, Option, none, some, ◌≡◌, ◌⊎◌, inl, inr, refl, is_some, is_neg,
  is_suc, is_io_err, is_recv_pending, if◌then◌else◌, ltb, ◌==◌, inc64, ◌∙◌, ap, Bool-cases,
}
use smart_net.Rup.Endpoint.{
  EpState, opened, EpEvt, internal_err, added_into_ot, added_into_it, deled_from_it_evt,
  deled_from_ot_evt, Endpoint, on_recved_data, ask, state_code,
}
use smart_net.Rup.Endpoint.Inv.{Inv, IsExpected, post_total}
use smart_net.Rup.Endpoint.Io.{
  IoType, input_task, output_task, is_opened, max_cycle_cnt, tell, handle_added_into_io_task,
  handle_deled_from_io_task, handle_io_error, handle_input_evt, send_hb_if_idle, check_peer,
  keep_alive, handle_output_evt,
}

module _ (del_ret : ℤ) where
  -- What the tasks and the socket report.
  pub data Report : Type 0 where
    added : IoType → ℤ → Report
    deled : IoType → Report
    io_error : Report
    input_ready : ℤ → Report
    output_ready : ℤ → Report

  pub report : Report → Endpoint → Option Endpoint
  report (added io ret) t = handle_added_into_io_task del_ret io ret t
  report (deled io) t = handle_deled_from_io_task del_ret io t
  report io_error t = handle_io_error del_ret t
  report (input_ready code) t = handle_input_evt del_ret code t
  report (output_ready code) t = handle_output_evt del_ret code t

  -- No error reaches an endpoint that the output task is adding, and the socket does not answer
  -- RECV_PENDING when it is ready, which the source asserts.
  abbrev pub IsPlain : Report → Endpoint → Type 0
  IsPlain (added io ret) t = (is_neg ret ≡ false) ⊎ IsExpected internal_err t.cur none t.in_helper
  IsPlain (deled io) t = Unit
  IsPlain io_error t = IsExpected internal_err t.cur none t.in_helper
  IsPlain (input_ready code) t = is_recv_pending code ≡ false
  IsPlain (output_ready code) t = Unit

  abbrev pub Goes : Option Endpoint → Type 0
  Goes o = (t : Endpoint) × (o ≡ some t) × Inv t

  tell_total :
      (e : EpEvt) (t : Endpoint)
      → Inv t
      → IsExpected e t.cur none t.in_helper
      → Goes (tell del_ret e t)
  tell_total e t v x = let (code, t', h, w) = post_total del_ret e none t v x in (t', rw h refl, w)

  opened_of : (s : EpState) → (state_code s == 2) ≡ true → s ≡ opened
  opened_of opened h = refl
  opened_of s h = absurd (cc h)

  added_total :
      (io : IoType) (ret : ℤ) (t : Endpoint)
      → Inv t
      → IsPlain (added io ret) t
      → Goes (handle_added_into_io_task del_ret io ret t)
  unfolding handle_added_into_io_task
  added_total io ret t v x = elim (Bool-cases (is_neg ret)) [
    | inr fine ↦ rw fine (second io t v)
    | inl bad ↦ elim x [
      | inl fine ↦ absurd (cc (bad, fine))
      | inr expected ↦
          let (u, h, w) = tell_total internal_err t v expected in rw (bad) (rw h (second io u w))
    ]
  ]
    where
      second :
          (io : IoType) (u : Endpoint)
          → Inv u
          → Goes (
              tell del_ret (elim io [ input_task ↦ added_into_it | output_task ↦ added_into_ot ]) u)
      second input_task u w = tell_total added_into_it u w tt
      second output_task u w = tell_total added_into_ot u w tt

  has_sock : (t : Endpoint) → Inv t → t.cur ≡ opened → is_some t.sock ≡ true
  has_sock t v o = (rw o at v).0

  -- An internal error is expected of an open endpoint.
  err_total : (t : Endpoint) → Inv t → t.cur ≡ opened → Goes (tell del_ret internal_err t)
  err_total t v o = tell_total internal_err t v (rw o tt)

  check_peer_total : (t : Endpoint) → Inv t → t.cur ≡ opened → Goes (check_peer del_ret t)
  unfolding check_peer
  check_peer_total t v o = elim (Bool-cases (t.recv_cnt == t.recv_store)) [
    | inr heard ↦ (record t { will_close = false; recv_store = t.recv_cnt }, rw heard refl, v)
    | inl silent ↦ elim (Bool-cases t.will_close) [
      | inr once ↦ (record t { will_close = true }, rw (silent, once) refl, v)
      | inl again ↦
          let (u, h, w) = err_total t v o in
          (
            u,
            rw silent (
                ap
                  (λ b.
                    if b
                    then tell del_ret internal_err t
                    else some (record t { will_close = true }))
                  again
                ∙ h),
            w,
          )
    ]
  ]

  send_hb_if_idle_lem :
      (t : Endpoint)
      → send_hb_if_idle t
        ≡ record t { log = (send_hb_if_idle t).log; send_store = (send_hb_if_idle t).send_store }
  unfolding send_hb_if_idle
  send_hb_if_idle_lem t = elim (Bool-cases (t.send_cnt == t.send_store)) [
    | inl idle ↦ rw (idle, send_hb_if_idle) refl
    | inr busy ↦ rw (busy, send_hb_if_idle) refl
  ]

  keep_alive_total : (t : Endpoint) → Inv t → t.cur ≡ opened → Goes (keep_alive del_ret t)
  unfolding keep_alive
  keep_alive_total t v o = elim (Bool-cases (ltb max_cycle_cnt ((t.cycle_cnt + 1) % 2 ^ 32))) [
    | inr early ↦ (record t { cycle_cnt = (t.cycle_cnt + 1) % 2 ^ 32 }, rw early refl, v)
    | inl due ↦
        rw due (rw (send_hb_if_idle_lem (record t { cycle_cnt = 0 })) (check_peer_total _ v o))
  ]

  -- Whatever the tasks and the socket report to an endpoint whose fields fit its state is handled
  -- without a failed assertion or a null pointer, and the fields fit the state again; no error
  -- reaches an endpoint that the output task is adding, and the socket does not answer RECV_PENDING
  -- when it is ready.
  pub report_total : (r : Report) (t : Endpoint) → Inv t → IsPlain r t → Goes (report r t)
  unfolding report handle_deled_from_io_task handle_io_error handle_input_evt handle_output_evt
  report_total (added io ret) t v x = added_total io ret t v x
  report_total (deled input_task) t v x = tell_total deled_from_it_evt t v tt
  report_total (deled output_task) t v x = tell_total deled_from_ot_evt t v tt
  report_total io_error t v x = tell_total internal_err t v x
  report_total (input_ready code) t v x = elim (Bool-cases (is_opened t)) [
    | inr shut ↦ (t, rw shut refl, v)
    | inl o ↦
        let is_open = opened_of t.cur o in
        let counted = record t { recv_cnt = inc64 t.recv_cnt } in
        elim (Bool-cases (is_suc code)) [
          | inl data_came ↦
              (ask on_recved_data counted, rw (o, has_sock t v is_open, data_came) refl, v)
          | inr other ↦
              let (u, h, w) = err_total counted v is_open in
              (u, rw (o, has_sock t v is_open, other, x) h, w)
        ]
  ]
  report_total (output_ready code) t v x = elim (Bool-cases (is_opened t)) [
    | inr shut ↦ (t, rw shut refl, v)
    | inl o ↦
        let is_open = opened_of t.cur o in
        elim (Bool-cases (is_io_err code)) [
          | inl err ↦
              let (u, h, w) = err_total t v is_open in (u, rw (o, has_sock t v is_open, err) h, w)
          | inr fine ↦
              let (u, h, w) = keep_alive_total t v is_open in
              (u, rw (o, has_sock t v is_open, fine) h, w)
        ]
  ]
