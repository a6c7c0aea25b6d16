-- ===== src/Rmp/Receiver/Polled.antt =====
-- Polling a receiver is the delivery of the datagrams that wait, one after the other.
use smart_net.Base.{
  ℕ, zero, suc, ℤ, ◌<◌, Bool, true, false, ◌&&◌, Option, none, some, List, [], ◌∷◌, ◌++◌, length,
  map, ltb, leb, ◌==◌, if◌then◌else◌, ◌>>=◌, >>=-eq-some, is_suc, is_odata_ready, cmnerr_suc,
  cmnerr_no_data, ◌%◌, cmnerr_odata_ready, All, inc64, ◌≡◌, refl, ap, sym, ◌∙◌, arith, inl, inr,
  ◌⊎◌, Bool-cases, Option-cases, lt→ltb,
}
use smart_net.Rmp.Packet.{Pkg, odata, Mem, empty_mem, odata_hdr_size, get_len}
use smart_net.Rmp.Receiver.{
  Receiver, recvep_handle_odata, recvep_handle_pkg, accept_next, activate, widen, store, set_ack,
  send_asserted, get_next_recved_data, drain, deliver, deliver_all, has_data, update,
}
use smart_net.Rmp.Receiver.SameSender.{odata_sender, drain_sender}
use smart_net.Rmp.Receiver.Polling.{Arrival, prepare, handle_can_recv, handle_input, poll}

-- Nothing was received into the block.
abbrev pub Idle : Option Mem → Type 0
Idle m = (m ≡ none) ⊎ (m ≡ some empty_mem)

prepare-Idle : (r : Receiver) → Idle r.mem → prepare r ≡ some (record r { mem = some empty_mem })
unfolding prepare
prepare-Idle r (inl h) = rw (h, prepare) refl
prepare-Idle r (inr h) = rw (h, prepare) (ap (λ m. some (record r { mem = m })) h)

activate_mem : (size : ℕ) (r : Receiver) → (activate size r).mem ≡ r.mem
unfolding activate
activate_mem size r = ground arith

accept_next_mem : (size : ℕ) (r : Receiver) → (accept_next size r).mem ≡ r.mem
unfolding accept_next
accept_next_mem size r = ground (arith, activate_mem size (record r { latest = inc64 r.latest }))

store_mem : (size seq : ℕ) (r r' : Receiver) → store size seq r ≡ some r' → r'.mem ≡ none
unfolding store
store_mem size seq r r' h = ground (arith, h)

set_ack_mem :
    (udp_send : Pkg → ℤ) (flag : Bool) (r r' : Receiver)
    → set_ack udp_send flag r ≡ some r'
    → r'.mem ≡ r.mem
unfolding set_ack send_asserted
set_ack_mem udp_send flag r r' h = ground (arith, h)

held_mem : List ℕ → Mem
held_mem body = record { offset = odata_hdr_size; body = body }

-- A data packet is either ready, or put away.
Handled : List ℕ → ℤ → Receiver → Type 0
Handled body code r =
    ((code ≡ cmnerr_odata_ready) × (r.mem ≡ some (held_mem body)))
    ⊎ ((code ≡ cmnerr_suc) × Idle r.mem)

some-pair :
    {A B : Type 0} (a c : A) (b d : B)
    → ◌≡◌ {A = Option (A × B)} (some (a, b)) (some (c, d))
    → (a ≡ c) × (b ≡ d)
some-pair a c b d h =
    (ap (λ o. elim o [ none ↦ a | some s ↦ s.0 ]) h, ap (λ o. elim o [ none ↦ b | some s ↦ s.1 ]) h)

odata-Handled :
    (size seq : ℕ) (body : List ℕ) (r r' : Receiver) (code : ℤ)
    → recvep_handle_odata size seq body r ≡ some (code, r')
    → Handled body code r'
unfolding recvep_handle_odata Handled held_mem
odata-Handled size seq body r r' code h = elim (Bool-cases (seq == inc64 r.latest)) [
  | inl next ↦
      let e : recvep_handle_odata size seq body r
          ≡ some (cmnerr_odata_ready, accept_next size held) =
        rw (next, recvep_handle_odata) refl in
      let (c, q) = some-pair _ _ _ _ (sym e ∙ h) in
      inl (sym c, ap (λ x. x.mem) (sym q) ∙ accept_next_mem size held)
  | inr other ↦ elim (Bool-cases (leb seq r.latest)) [
    | inl old ↦
        let e : recvep_handle_odata size seq body r
            ≡ some (cmnerr_suc, record r { mem = some empty_mem }) =
          rw (other, recvep_handle_odata) (rw old refl) in
        let (c, q) = some-pair _ _ _ _ (sym e ∙ h) in inr (sym c, inr (ap (λ x. x.mem) (sym q)))
    | inr ahead ↦
        let e : recvep_handle_odata size seq body r
            ≡ (widen size seq held >>= λ w. store size seq w >>= λ t. some (cmnerr_suc, t)) =
          rw (other, recvep_handle_odata) (rw ahead refl) in
        let (w, _, rest) = >>=-eq-some (widen size seq held) _ (sym e ∙ h) in
        let (t, kept, same) = >>=-eq-some (store size seq w) _ rest in
        let (c, q) = some-pair _ _ _ _ same in
        inr (sym c, inl (ap (λ x. x.mem) (sym q) ∙ store_mem size seq w t kept))
  ]
]
  where
    held : Receiver
    held = record r { mem = some (held_mem body) }

-- Nothing is left in the block when all packets have been handed out.
get_next_mem :
    (size : ℕ) (udp_send : Pkg → ℤ) (r r' : Receiver) (code : ℤ) (p : Option Mem)
    → r.mem ≡ none
    → get_next_recved_data size udp_send r ≡ some (code, p, r')
    → r'.mem ≡ none
unfolding get_next_recved_data
get_next_mem size udp_send r r' code p idle h =
    let empty : has_data r.mem ≡ false = ap has_data idle in
    elim (Bool-cases (ltb 0 r.valid_begin && leb r.valid_begin r.valid_end)) [
      | inl more ↦
          let r1 : Receiver = record r {
            slots = update r.slots (r.valid_begin % size) none;
            valid_begin = inc64 r.valid_begin;
          } in
          let e : get_next_recved_data size udp_send r
              ≡ some (cmnerr_suc, r.slots (r.valid_begin % size), r1) =
            rw (empty, get_next_recved_data) (rw more refl) in
          ap (λ o. elim o [ none ↦ none | some s ↦ (s.2).mem ]) (sym h ∙ e) ∙ idle
      | inr last ↦
          let r1 : Receiver = record r { valid_begin = 0; valid_end = 0 } in
          let e : get_next_recved_data size udp_send r
              ≡ (set_ack udp_send false r1 >>= λ a. some (cmnerr_no_data, none, a)) =
            rw (empty, get_next_recved_data) (rw last refl) in
          let (a, acked, same) = >>=-eq-some (set_ack udp_send false r1) _ (sym e ∙ h) in
          ap (λ o. elim o [ none ↦ none | some s ↦ (s.2).mem ]) (sym same)
          ∙ set_ack_mem udp_send false r1 a acked
          ∙ idle
    ]

drain_mem :
    (size : ℕ) (udp_send : Pkg → ℤ) (fuel : ℕ) (r r' : Receiver) (out : List (Option Mem))
    → r.mem ≡ none
    → drain size udp_send fuel r ≡ some (out, r')
    → r'.mem ≡ none
unfolding drain
drain_mem size udp_send zero r r' out idle h = cc
drain_mem size udp_send (suc fuel) r r' out idle h =
    elim (Option-cases (get_next_recved_data size udp_send r)) [
      | inl n ↦ absurd (ground (arith, h, n))
      | inr (s, e) ↦
          let still : (s.2).mem ≡ none = get_next_mem size udp_send r (s.2) (s.0) (s.1) idle e in
          elim (Bool-cases (is_suc (s.0))) [
            | inl more ↦
                let rest : (drain size udp_send fuel (s.2) >>= λ p. some (s.1 ∷ p.0, p.1))
                    ≡ some (out, r') =
                  sym (rw (e, drain) (rw more refl)) ∙ h in
                let (p, drained, same) = >>=-eq-some (drain size udp_send fuel (s.2)) _ rest in
                ap (λ o. elim o [ none ↦ none | some t ↦ (t.1).mem ]) (sym same)
                ∙ drain_mem size udp_send fuel (s.2) (p.1) (p.0) still drained
            | inr last ↦
                let same : ◌≡◌ {A = Option (List (Option Mem) × Receiver)} (some ([], s.2))
                    (some (out, r')) =
                  sym (rw (e, drain) (rw last refl)) ∙ h in
                ap (λ o. elim o [ none ↦ none | some t ↦ (t.1).mem ]) (sym same) ∙ still
          ]
    ]

-- The first packet that is handed out is the one in the block.
drain_ready_mem :
    (size : ℕ) (udp_send : Pkg → ℤ) (fuel : ℕ) (r r' : Receiver) (out : List (Option Mem)) (m : Mem)
    → r.mem ≡ some m
    → 0 < get_len m
    → drain size udp_send fuel r ≡ some (out, r')
    → r'.mem ≡ none
unfolding drain get_next_recved_data
drain_ready_mem size udp_send zero r r' out m h full e = cc
drain_ready_mem size udp_send (suc fuel) r r' out m h full e =
    let has : has_data r.mem ≡ true = ap has_data h ∙ lt→ltb 0 (get_len m) full in
    let r1 : Receiver = record r { mem = none } in
    let first : get_next_recved_data size udp_send r ≡ some (cmnerr_suc, r.mem, r1) =
      rw (has, get_next_recved_data) refl in
    let rest : (drain size udp_send fuel r1 >>= λ p. some (r.mem ∷ p.0, p.1)) ≡ some (out, r') =
      sym (rw (first, drain) refl) ∙ e in
    let (p, drained, same) = >>=-eq-some (drain size udp_send fuel r1) _ rest in
    ap (λ o. elim o [ none ↦ none | some t ↦ (t.1).mem ]) (sym same)
    ∙ drain_mem size udp_send fuel r1 (p.1) (p.0) refl drained

odata_from :
    (size seq : ℕ) (body : List ℕ) (r : Receiver) (m : Option Mem)
    → recvep_handle_odata size seq body (record r { mem = m }) ≡ recvep_handle_odata size seq body r
unfolding recvep_handle_odata
odata_from size seq body r m = refl

abbrev pub arrives : ℕ → ℕ × List ℕ → Arrival
arrives id (seq, body) = Arrival.packet (record { src_id = id; pkg = odata seq body })

-- One datagram, at a receiver that can take one.
first_datagram :
    (size : ℕ) (udp_send : Pkg → ℤ) (id seq : ℕ) (body : List ℕ) (q : List Arrival)
    (r r1 : Receiver) (code : ℤ)
    → Idle r.mem
    → r.sender_id ≡ id
    → recvep_handle_odata size seq body r ≡ some (code, r1)
    → handle_can_recv size udp_send (arrives id (seq, body) ∷ q) r ≡ (elim (is_suc code) [
      | true ↦ handle_can_recv size udp_send q r1
      | false ↦ some (code, q, r1)
    ])
unfolding handle_can_recv recvep_handle_pkg
first_datagram size udp_send id seq body q r r1 code idle own e =
    let same : (id == r.sender_id) ≡ true = ground (arith, own) in
    let e' : recvep_handle_odata size seq body (record r { mem = some empty_mem })
        ≡ some (code, r1) =
      odata_from size seq body r (some empty_mem) ∙ e in
    rw (prepare-Idle r idle) (rw same (rw e' refl))

-- A datagram that is put away is handled in the same call as those behind it.
poll_on :
    (size : ℕ) (udp_send : Pkg → ℤ) (calls fuel id seq : ℕ) (body : List ℕ) (q : List Arrival)
    (r r1 : Receiver)
    → Idle r.mem
    → r.sender_id ≡ id
    → recvep_handle_odata size seq body r ≡ some (cmnerr_suc, r1)
    → poll size udp_send (suc calls) fuel (arrives id (seq, body) ∷ q) r
      ≡ poll size udp_send (suc calls) fuel q r1
unfolding poll handle_input
poll_on size udp_send calls fuel id seq body q r r1 idle own e =
    rw (first_datagram size udp_send id seq body q r r1 cmnerr_suc idle own e) refl

-- A datagram that is ready ends the call, and is handed out with those that it completes.
poll_ready :
    (size : ℕ) (udp_send : Pkg → ℤ) (calls fuel id seq : ℕ) (body : List ℕ) (q : List Arrival)
    (r r1 r2 : Receiver) (out : List (Option Mem))
    → Idle r.mem
    → r.sender_id ≡ id
    → recvep_handle_odata size seq body r ≡ some (cmnerr_odata_ready, r1)
    → drain size udp_send fuel r1 ≡ some (out, r2)
    → poll size udp_send (suc calls) fuel (arrives id (seq, body) ∷ q) r
      ≡ (poll size udp_send calls fuel q r2 >>= λ p. some (out ++ p.0, p.1))
unfolding poll handle_input
poll_ready size udp_send calls fuel id seq body q r r1 r2 out idle own e drained =
    rw (first_datagram size udp_send id seq body q r r1 cmnerr_odata_ready idle own e)
      (rw drained refl)

poll_none :
    (size : ℕ) (udp_send : Pkg → ℤ) (calls fuel : ℕ) (r : Receiver)
    → Idle r.mem
    → poll size udp_send (suc calls) fuel [] r ≡ some ([], record r { mem = some empty_mem })
unfolding poll handle_input handle_can_recv
poll_none size udp_send calls fuel r idle = rw (prepare-Idle r idle) refl

-- How polling goes on after one datagram, whose delivery is `d`.
record Step (size : ℕ) (udp_send : Pkg → ℤ) (fuel : ℕ) (a : Arrival) (r : Receiver)
    (d : List (Option Mem) × Receiver) : Type 0 where
  idle : Idle (d.1).mem
  own : (d.1).sender_id ≡ r.sender_id
  goes_on :
      (calls : ℕ) (q : List Arrival)
      → (poll size udp_send (suc calls) fuel (a ∷ q) r
          ≡ (poll size udp_send calls fuel q (d.1) >>= λ p. some (d.0 ++ p.0, p.1)))
        ⊎ ((d.0 ≡ [])
            × (poll size udp_send (suc calls) fuel (a ∷ q) r
                ≡ poll size udp_send (suc calls) fuel q (d.1)))

deliver-Step :
    (size : ℕ) (udp_send : Pkg → ℤ) (fuel id seq : ℕ) (body : List ℕ) (r r1 : Receiver) (code : ℤ)
    (d : List (Option Mem) × Receiver)
    → 0 < length body
    → Idle r.mem
    → r.sender_id ≡ id
    → recvep_handle_odata size seq body r ≡ some (code, r1)
    → (if is_odata_ready code then drain size udp_send fuel r1 else some ([], r1)) ≡ some d
    → Step size udp_send fuel (arrives id (seq, body)) r d
unfolding Handled held_mem
deliver-Step size udp_send fuel id seq body r r1 code d full idle own handled rest =
    elim (odata-Handled size seq body r r1 code handled) [
      | inl (ready, mem) ↦
          let handled' : recvep_handle_odata size seq body r ≡ some (cmnerr_odata_ready, r1) =
            handled ∙ ap (λ k. some (k, r1)) ready in
          let drained : drain size udp_send fuel r1 ≡ some (d.0, d.1) =
            sym (rw ready refl) ∙ rest in
          record {
            idle = inl (drain_ready_mem size udp_send fuel r1 (d.1) (d.0) _ mem full drained);
            own =
                drain_sender size udp_send fuel r1 (d.1) (d.0) drained
                ∙ odata_sender size seq body r r1 code handled;
            goes_on = λ calls q. inl (
                poll_ready size udp_send calls fuel id seq body q r r1 (d.1) (d.0) idle own handled'
                  drained);
          }
      | inr (away, still) ↦
          let handled' : recvep_handle_odata size seq body r ≡ some (cmnerr_suc, r1) =
            handled ∙ ap (λ k. some (k, r1)) away in
          let same : ◌≡◌ {A = Option (List (Option Mem) × Receiver)} (some ([], r1)) (some d) =
            sym (rw away refl) ∙ rest in
          let r1' : r1 ≡ d.1 = ap (λ o. elim o [ none ↦ r1 | some t ↦ t.1 ]) same in
          record {
            idle = rw (← r1') still;
            own = rw (← r1') (odata_sender size seq body r r1 code handled);
            goes_on = λ calls q. inr (
              ap (λ o. elim o [ none ↦ [] | some t ↦ t.0 ]) (sym same),
              poll_on size udp_send calls fuel id seq body q r r1 idle own handled'
                  ∙ ap (poll size udp_send (suc calls) fuel q) r1',
            );
          }
    ]

delivered-Step :
    (size : ℕ) (udp_send : Pkg → ℤ) (fuel id seq : ℕ) (body : List ℕ) (r : Receiver)
    (d : List (Option Mem) × Receiver)
    → 0 < length body
    → Idle r.mem
    → r.sender_id ≡ id
    → deliver size udp_send fuel seq body r ≡ some d
    → Step size udp_send fuel (arrives id (seq, body)) r d
unfolding deliver
delivered-Step size udp_send fuel id seq body r d full idle own one =
    let (c, handled, rest) = >>=-eq-some (recvep_handle_odata size seq body r) _ one in
    deliver-Step size udp_send fuel id seq body r (c.1) (c.0) d full idle own handled rest

-- What is left when the last datagram has been handled.
abbrev pub emptied : List (Option Mem) × Receiver → List (Option Mem) × Receiver
emptied t = (t.0, record (t.1) { mem = some empty_mem })

-- Calling handle_input_evt until no datagram waits hands out what handling the same packets one by
-- one does, and leaves the same receiver with an empty block, when the packets come from the
-- receiver's sender and are not empty, m_pMem is null or empty, the calls are more than the
-- packets, and handling them one by one does not abort.
pub poll-deliver_all :
    (size : ℕ) (udp_send : Pkg → ℤ) (fuel id : ℕ) (ds : List (ℕ × List ℕ)) (calls : ℕ)
    (r : Receiver) (t : List (Option Mem) × Receiver)
    → All (λ d. 0 < length (d.1)) ds
    → Idle r.mem
    → r.sender_id ≡ id
    → length ds < calls
    → deliver_all size udp_send fuel ds r ≡ some t
    → poll size udp_send calls fuel (map (arrives id) ds) r ≡ some (emptied t)
unfolding deliver_all
poll-deliver_all size udp_send fuel id ds zero r t full idle own enough h =
    absurd (omega (arith, enough))
poll-deliver_all size udp_send fuel id [] (suc calls) r t full idle own enough h =
    poll_none size udp_send calls fuel r idle
    ∙ ap (λ o. elim o [ none ↦ none | some x ↦ some (emptied x) ]) h
poll-deliver_all size udp_send fuel id ((seq, body) ∷ ds) (suc calls) r t full idle own enough h =
    let (d, one, rest) = >>=-eq-some (deliver size udp_send fuel seq body r) _ h in
    let (e, later, same) = >>=-eq-some (deliver_all size udp_send fuel ds (d.1)) _ rest in
    let st = delivered-Step size udp_send fuel id seq body r d (full.0) idle own one in
    elim (st.goes_on calls (map (arrives id) ds)) [
      | inl on ↦
          let ih =
            poll-deliver_all size udp_send fuel id ds calls (d.1) e (full.1) st.idle (st.own ∙ own)
              (omega (arith, enough)) later in
          on ∙ rw ih refl ∙ ap (λ o. elim o [ none ↦ none | some x ↦ some (emptied x) ]) same
      | inr (nothing, on) ↦
          let ih =
            poll-deliver_all size udp_send fuel id ds (suc calls) (d.1) e (full.1) st.idle
              (st.own ∙ own) (omega (arith, enough)) later in
          on
          ∙ ih
          ∙ ap (λ l. some (emptied (l ++ e.0, e.1))) (sym nothing)
          ∙ ap (λ o. elim o [ none ↦ none | some x ↦ some (emptied x) ]) same
    ]
