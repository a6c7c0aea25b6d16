-- ===== src/Rmp/Receiver/SameSender.antt =====
-- No function of a receiver changes the sender that it listens to.
use smart_net.Base.{
  ℕ, zero, suc, ℤ, Bool, Option, none, some, List, [], ◌∷◌, leb, ◌==◌, ◌>>=◌, >>=-eq-some, is_suc,
  cmnerr_suc, cmnerr_odata_ready, inc64, ◌≡◌, refl, ap, sym, ◌∙◌, arith, inl, inr, Bool-cases,
  Option-cases,
}
use smart_net.Rmp.Packet.{Pkg, Mem, empty_mem, odata_hdr_size}
use smart_net.Rmp.Receiver.{
  Receiver, recvep_handle_odata, accept_next, activate, widen, store, set_ack, send_asserted,
  get_next_recved_data, drain,
}

-- The sender of the receiver in a result, or a given one.
abbrev sender_in : ℕ → Option (ℤ × Receiver) → ℕ
sender_in k o = elim o [ none ↦ k | some s ↦ (s.1).sender_id ]

activate_sender : (size : ℕ) (r : Receiver) → (activate size r).sender_id ≡ r.sender_id
unfolding activate
activate_sender size r = ground arith

accept_next_sender : (size : ℕ) (r : Receiver) → (accept_next size r).sender_id ≡ r.sender_id
unfolding accept_next
accept_next_sender size r =
    ground (arith, activate_sender size (record r { latest = inc64 r.latest }))

widen_sender :
    (size seq : ℕ) (r r' : Receiver) → widen size seq r ≡ some r' → r'.sender_id ≡ r.sender_id
unfolding widen
widen_sender size seq r r' h = ground (arith, h)

store_sender :
    (size seq : ℕ) (r r' : Receiver) → store size seq r ≡ some r' → r'.sender_id ≡ r.sender_id
unfolding store
store_sender size seq r r' h = ground (arith, h)

set_ack_sender :
    (udp_send : Pkg → ℤ) (flag : Bool) (r r' : Receiver)
    → set_ack udp_send flag r ≡ some r'
    → r'.sender_id ≡ r.sender_id
unfolding set_ack send_asserted
set_ack_sender udp_send flag r r' h = ground (arith, h)

pub odata_sender :
    (size seq : ℕ) (body : List ℕ) (r r' : Receiver) (code : ℤ)
    → recvep_handle_odata size seq body r ≡ some (code, r')
    → r'.sender_id ≡ r.sender_id
unfolding recvep_handle_odata
odata_sender size seq body r r' code h = elim (Bool-cases (seq == inc64 r.latest)) [
  | inl next ↦
      let e : recvep_handle_odata size seq body r
          ≡ some (cmnerr_odata_ready, accept_next size held) =
        rw (next, recvep_handle_odata) refl in
      ap (sender_in r.sender_id) (sym h ∙ e) ∙ accept_next_sender size held
  | inr other ↦ elim (Bool-cases (leb seq r.latest)) [
    | inl old ↦
        let e : recvep_handle_odata size seq body r
            ≡ some (cmnerr_suc, record r { mem = some empty_mem }) =
          rw (other, recvep_handle_odata) (rw old refl) in
        ap (sender_in r.sender_id) (sym h ∙ e)
    | inr ahead ↦
        let e : recvep_handle_odata size seq body r
            ≡ (widen size seq held >>= λ w. store size seq w >>= λ t. some (cmnerr_suc, t)) =
          rw (other, recvep_handle_odata) (rw ahead refl) in
        let (w, wide, rest) = >>=-eq-some (widen size seq held) _ (sym e ∙ h) in
        let (t, kept, same) = >>=-eq-some (store size seq w) _ rest in
        ap (sender_in r.sender_id) (sym same)
        ∙ store_sender size seq w t kept
        ∙ widen_sender size seq held w wide
  ]
]
  where
    held : Receiver
    held = record r { mem = some (record { offset = odata_hdr_size; body = body }) }

get_next_sender :
    (size : ℕ) (udp_send : Pkg → ℤ) (r r' : Receiver) (code : ℤ) (p : Option Mem)
    → get_next_recved_data size udp_send r ≡ some (code, p, r')
    → r'.sender_id ≡ r.sender_id
unfolding get_next_recved_data set_ack send_asserted
get_next_sender size udp_send r r' code p h = ground (arith, h)

pub drain_sender :
    (size : ℕ) (udp_send : Pkg → ℤ) (fuel : ℕ) (r r' : Receiver) (out : List (Option Mem))
    → drain size udp_send fuel r ≡ some (out, r')
    → r'.sender_id ≡ r.sender_id
unfolding drain
drain_sender size udp_send zero r r' out h = cc
drain_sender size udp_send (suc fuel) r r' out h =
    elim (Option-cases (get_next_recved_data size udp_send r)) [
      | inl n ↦ absurd (ground (arith, h, n))
      | inr (s, e) ↦
          let still : (s.2).sender_id ≡ r.sender_id =
            get_next_sender size udp_send r (s.2) (s.0) (s.1) e in
          elim (Bool-cases (is_suc (s.0))) [
            | inl more ↦
                let rest : (drain size udp_send fuel (s.2) >>= λ p. some (s.1 ∷ p.0, p.1))
                    ≡ some (out, r') =
                  sym (rw (e, drain) (rw more refl)) ∙ h in
                let (p, drained, same) = >>=-eq-some (drain size udp_send fuel (s.2)) _ rest in
                ap (λ o. elim o [ none ↦ r.sender_id | some t ↦ (t.1).sender_id ]) (sym same)
                ∙ drain_sender size udp_send fuel (s.2) (p.1) (p.0) drained
                ∙ still
            | inr last ↦
                let same : ◌≡◌ {A = Option (List (Option Mem) × Receiver)} (some ([], s.2))
                    (some (out, r')) =
                  sym (rw (e, drain) (rw last refl)) ∙ h in
                ap (λ o. elim o [ none ↦ r.sender_id | some t ↦ (t.1).sender_id ]) (sym same)
                ∙ still
          ]
    ]
