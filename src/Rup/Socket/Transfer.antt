-- ===== src/Rup/Socket/Transfer.antt =====
-- Two sockets of CRupSock: what one is given to send is what the other receives.
use smart_net.Base.{
  ℕ, ℤ, ◌+◌, ◌≤◌, ◌<◌, Bool, true, Option, some, List, [], ◌∷◌, ◌++◌, length, length-append,
  append_assoc, append_nil, ◌>>=◌, All, ◌≡◌, refl, ap, sym, ◌∙◌, arith,
}
use smart_net.Memory.Block.{max_mem_size}
use smart_net.Rup.Socket.{
  RupSock, SendRet, RecvRet, new_sock, no_blocks, send_bytes, handle_can_send, handle_can_recv,
}
use smart_net.Rup.Socket.Queue.{stream}
use smart_net.Rup.Socket.Sending.{
  total, IsValid, Honest, InOrder, Passed, send_bytes_lem, stream-empty,
}
use smart_net.Rup.Socket.Draining.{Calm, Drained, blocks, handle_can_send-Drained}
use smart_net.Rup.Socket.Receiving.{unread, RecvValid, held, HeldFits, handle_can_recv_lem}

-- Calls of send and of handle_can_send that lead from one socket to another, and the bytes that were
-- given to send.
pub data Sends : RupSock → List ℕ → RupSock → Type 0 where
  done : (s : RupSock) → Sends s [] s
  call_send :
      {s s1 s2 : RupSock} {l ls : List ℕ} (locked : Bool) (net : List ℕ → SendRet) (code : ℤ)
      → Honest net
      → length l ≤ max_mem_size
      → InOrder locked net l s
      → send_bytes locked net l s ≡ some (code, s1)
      → Sends s1 ls s2
      → Sends s (l ++ ls) s2
  call_can_send :
      {s s1 s2 : RupSock} {ls : List ℕ} (fuel k0 : ℕ) (net : ℕ → List ℕ → SendRet) (code : ℤ)
      → ((j : ℕ) → Honest (net j))
      → Calm k0 net
      → blocks s + k0 < fuel
      → handle_can_send fuel net s ≡ some (code, s1)
      → Sends s1 ls s2
      → Sends s ls s2

pub Sends-total :
    {s s' : RupSock} {l : List ℕ}
    → Sends s l s'
    → IsValid s
    → (total s' ≡ total s ++ l) × IsValid s'
unfolding Passed Drained
Sends-total (Sends.done s) v = (sym (append_nil (total s)), v)
Sends-total {s = s}
      (Sends.call_send {s1 = s1} {l = l} {ls = ls} locked net code honest short o e rest) v =
    let (code', s1', q, _, t, v') = send_bytes_lem locked net l s honest short o v in
    let same : s1' ≡ s1 = ground (arith, q, e) in
    let (t2, v2) = Sends-total rest (rw (← same) v') in
    (t2 ∙ ap (λ x. x ++ ls) (ap total (sym same) ∙ t) ∙ append_assoc (total s) l ls, v2)
Sends-total {s = s} (Sends.call_can_send {s1 = s1} {ls = ls} fuel k0 net code honest calm m e rest)
      v =
    let (code', s1', q, t, v', _) = handle_can_send-Drained fuel net k0 s honest calm m v in
    let same : s1' ≡ s1 = ground (arith, q, e) in
    let (t2, v2) = Sends-total rest (rw (← same) v') in
    (t2 ∙ ap (λ x. x ++ ls) (ap total (sym same) ∙ t), v2)

-- The pieces in which recv() brings the bytes, each of them not empty.
unfoldable pub joined : List (List ℕ) → List ℕ
joined [] = []
joined (l ∷ ls) = l ++ joined ls

-- handle_can_recv for each piece.
pub recv_all : List (List ℕ) → RupSock → Option RupSock
recv_all [] s = some s
recv_all (l ∷ ls) s = handle_can_recv (λ free. RecvRet.got l) s >>= λ r. recv_all ls (r.1)

recv_all_lem :
    (ls : List (List ℕ)) (s : RupSock)
    → RecvValid s
    → All (λ l. 0 < length l) ls
    → length (unread s) + length (joined ls) ≤ max_mem_size
    → (s' : RupSock) × (recv_all ls s ≡ some s') × (unread s' ≡ unread s ++ joined ls)
unfolding recv_all joined
recv_all_lem [] s v a m = (s, refl, sym (append_nil (unread s)))
recv_all_lem (l ∷ ls) s v a m =
    let n : length (l ++ joined ls) ≡ length l + length (joined ls) = length-append l (joined ls) in
    let (s1, q, u, v1) =
      handle_can_recv_lem (λ free. RecvRet.got l) l s v (a.0) (omega (arith, m, n)) refl in
    let n1 : length (unread s1) ≡ length (unread s) + length l =
      ap length u ∙ length-append (unread s) l in
    let (s2, q2, u2) = recv_all_lem ls s1 v1 (a.1) (omega (arith, m, n, n1)) in
    (s2, rw q q2, u2 ∙ ap (λ x. x ++ joined ls) u ∙ append_assoc (unread s) l (joined ls))

both_empty :
    (s : RupSock)
    → no_blocks s.sending ≡ true
    → no_blocks s.send_cache ≡ true
    → stream s.sending ++ stream s.send_cache ≡ []
both_empty s clear idle = rw (stream-empty s.sending clear, stream-empty s.send_cache idle) refl

-- Whatever calls of send and handle_can_send lead from a new socket to one in which no block waits,
-- each of them in order and with a kernel that takes at least one byte and no more than it is
-- given, a new socket that receives what is on the wire, in whatever pieces that are not empty,
-- holds exactly the bytes that were given to send, if a block can hold them.
pub transfer :
    {l : List ℕ} (s : RupSock) (ls : List (List ℕ))
    → Sends new_sock l s
    → no_blocks s.sending ≡ true
    → no_blocks s.send_cache ≡ true
    → joined ls ≡ s.wire
    → All (λ p. 0 < length p) ls
    → length l ≤ max_mem_size
    → (r : RupSock) × (recv_all ls new_sock ≡ some r) × (unread r ≡ l)
unfolding total stream held HeldFits
transfer {l = l} s ls sends clear idle cut pieces short =
    let (t, _) = Sends-total sends (record { sending_fits = tt; cache_fits = tt }) in
    let all : s.wire ≡ l =
      sym (append_nil s.wire) ∙ ap (λ x. s.wire ++ x) (sym (both_empty s clear idle)) ∙ t in
    let (r, q, u) =
      recv_all_lem ls new_sock tt pieces (omega (arith, short, ap length (cut ∙ all))) in
    (r, q, u ∙ cut ∙ all)
