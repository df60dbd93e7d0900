-- ===== src/UdpProxy/Replies/Steps.antt =====
-- One event at the proxy: what it does to the client whose stream it is about, and that it spares another.
use holesail_cpp.Base.{
  if◌then◌else◌, Bool, true, false, not, ◌||◌, Option, List, [], ◌∷◌, ◌++◌, append_assoc,
  append-nil, is_empty, Bytes, bytes_eq, bytes_eq_refl, ◌≡◌, ◌≢◌, refl, sym, ap, subst, ◌∙◌, All,
  Option-cases, inl, inr, branches, then_branch, else_branch, arith,
}
use holesail_cpp.Frame.{incomplete, front, push, Pushed}
use holesail_cpp.Frame.Chunks.{push-nil}
use holesail_cpp.UdpProxy.{
  Address, Client, sends, UdpProxy, find, erase, update, calls, drop_client, send_all, settle,
  to_client, on_stream_data, on_stream_close,
}
use holesail_cpp.UdpProxy.Clients.{find-erase}
use holesail_cpp.UdpProxy.Entries.{erase-All, update-All, find-All, find-update_same}
use holesail_cpp.UdpProxy.Replies.{same_address, sent_to, Apart, Serving}

send_all_state :
    (a : Address) (ds : List Bytes) (p : UdpProxy)
    → ((send_all a ds p).clients ≡ p.clients) × ((send_all a ds p).sock ≡ p.sock)
unfolding send_all
send_all_state a [] p = (refl, refl)
send_all_state a (d ∷ ds) p = send_all_state a ds (calls (sends a d) p)

same_address_refl : (a : Address) → same_address a a ≡ true
same_address_refl a = ground arith

send_all-sent_to :
    (a : Address) (ds : List Bytes) (p : UdpProxy)
    → sent_to a (send_all a ds p).trace ≡ sent_to a p.trace ++ ds
unfolding send_all
send_all-sent_to a [] p = sym (append-nil (sent_to a p.trace))
send_all-sent_to a (d ∷ ds) p =
    send_all-sent_to a ds (calls (sends a d) p)
    ∙ ap (λ (b : Bool). (sent_to a p.trace ++ (if b then d ∷ [] else [])) ++ ds)
        (same_address_refl a)
    ∙ append_assoc (sent_to a p.trace) (d ∷ []) ds

send_all_elsewhere :
    (a b : Address) (ds : List Bytes) (p : UdpProxy)
    → same_address b a ≡ false
    → sent_to a (send_all b ds p).trace ≡ sent_to a p.trace
unfolding send_all
send_all_elsewhere a b [] p h = refl
send_all_elsewhere a b (d ∷ ds) p h =
    send_all_elsewhere a b ds (calls (sends b d) p) h
    ∙ ap (λ (t : Bool). sent_to a p.trace ++ (if t then d ∷ [] else [])) h
    ∙ append-nil (sent_to a p.trace)

-- A chunk of the client's own stream that its decoder takes.
pub own_chunk :
    (id bytes : Bytes) (c : Client) (p : UdpProxy)
    → front c.buffer ≡ incomplete
    → (push c.buffer bytes).accepted ≡ true
    → Serving id c p
    → Serving id (record c { buffer = (push c.buffer bytes).buffer }) (on_stream_data id bytes p)
      × (sent_to c.addr (on_stream_data id bytes p).trace
          ≡ sent_to c.addr p.trace ++ (push c.buffer bytes).frames)
unfolding on_stream_data to_client settle
own_chunk id [] c p waits good v =
    let nothing = push-nil c.buffer waits in
    let skipped : on_stream_data id [] p ≡ p = ground (arith, v.opened) in
    subst
      (λ (q : Pushed).
        Serving id (record c { buffer = q.buffer }) (on_stream_data id [] p)
        × (sent_to c.addr (on_stream_data id [] p).trace ≡ sent_to c.addr p.trace ++ q.frames))
      (sym nothing)
      (subst
        (λ (x : UdpProxy). Serving id c x × (sent_to c.addr x.trace ≡ sent_to c.addr p.trace ++ []))
        (sym skipped) (v, sym (append-nil (sent_to c.addr p.trace))))
own_chunk id (b ∷ bytes) c p waits good v =
    let q : Pushed = push c.buffer (b ∷ bytes) in
    let new : Client = record c { buffer = q.buffer } in
    let kept : UdpProxy = record p { clients = update id new p.clients } in
    let sent : UdpProxy = send_all c.addr q.frames kept in
    let taken : on_stream_data id (b ∷ bytes) p ≡ sent =
      else_branch (λ x. x ≡ sent) (not p.sock || is_empty (b ∷ bytes)) p _
        (ground (arith, v.opened))
        (ap (λ o. to_client id (b ∷ bytes) o p) v.found
          ∙ then_branch (λ x. x ≡ sent) q.accepted sent (drop_client id c sent) good refl) in
    let (clients, sock) = send_all_state c.addr q.frames kept in
    let here : Apart id c.addr (id, new) =
      ap (λ t. t || not (same_address c.addr c.addr)) (bytes_eq_refl id) in
    subst
      (λ (x : UdpProxy).
        Serving id new x × (sent_to c.addr x.trace ≡ sent_to c.addr p.trace ++ q.frames))
      (sym taken)
      (
        record {
          found = ap (find id) clients ∙ find-update_same id c new p.clients v.found;
          opened = sock ∙ v.opened;
          apart =
              subst (All (Apart id c.addr)) (sym clients)
                (update-All (Apart id c.addr) id new p.clients here v.apart);
        },
        send_all-sent_to c.addr q.frames kept,
      )

drop_client_state :
    (a : Address) (id : Bytes) (c : Client) (p : UdpProxy)
    → ((drop_client id c p).clients ≡ erase id p.clients)
      × (((drop_client id c p).sock ≡ p.sock)
          × (sent_to a (drop_client id c p).trace ≡ sent_to a p.trace))
unfolding drop_client
drop_client_state a id c p =
    branches
      (λ (x : UdpProxy).
        (x.clients ≡ erase id p.clients)
        × ((x.sock ≡ p.sock) × (sent_to a x.trace ≡ sent_to a p.trace)))
      c.closes _ _ (λ e. (refl, (refl, refl))) (λ e. (refl, (refl, refl)))

-- What a step for another client leaves to a client at address `a`.
pub record Spared (id : Bytes) (a : Address) (p q : UdpProxy) : Type 0 where
  pub sock : q.sock ≡ p.sock
  pub sent : sent_to a q.trace ≡ sent_to a p.trace
  pub apart : All (Apart id a) q.clients

settle_elsewhere :
    (id key : Bytes) (a : Address) (c : Client) (q : Pushed) (p : UdpProxy)
    → Apart id a (key, c)
    → bytes_eq key id ≡ false
    → All (Apart id a) p.clients
    → Spared id a p (settle key c q p)
unfolding settle
settle_elsewhere id key a c q p h ne v =
    let new : Client = record c { buffer = q.buffer } in
    let kept : UdpProxy = record p { clients = update key new p.clients } in
    let sent : UdpProxy = send_all c.addr q.frames kept in
    let (clients, sock) = send_all_state c.addr q.frames kept in
    let elsewhere : sent_to a sent.trace ≡ sent_to a p.trace =
      send_all_elsewhere a c.addr q.frames kept (ground (arith, h, ne)) in
    let all : All (Apart id a) sent.clients =
      subst (All (Apart id a)) (sym clients) (update-All (Apart id a) key new p.clients h v) in
    let (erased, (still, mute)) = drop_client_state a key c sent in
    branches (Spared id a p) q.accepted sent (drop_client key c sent)
      (λ e. record { sock = sock; sent = elsewhere; apart = all })
      (λ e. record {
        sock = still ∙ sock;
        sent = mute ∙ elsewhere;
        apart = subst (All (Apart id a)) (sym erased) (erase-All (Apart id a) key sent.clients all);
      })

pub other_chunk :
    (id key : Bytes) (a : Address) (bytes : Bytes) (p : UdpProxy)
    → bytes_eq key id ≡ false
    → All (Apart id a) p.clients
    → Spared id a p (on_stream_data key bytes p)
unfolding on_stream_data to_client
other_chunk id key a bytes p ne v =
    let same : Spared id a p p = record { sock = refl; sent = refl; apart = v } in
    let Q : Option Client → Type 0 = λ o. Spared id a p (to_client key bytes o p) in
    let known : Q (find key p.clients) = elim (Option-cases (find key p.clients)) [
      | inl e ↦ subst Q (sym e) same
      | inr (c, e) ↦ subst Q (sym e) (
          settle_elsewhere id key a c (push c.buffer bytes) p
            (find-All (Apart id a) key c p.clients e v) ne v)
    ] in
    branches (Spared id a p) (not p.sock || is_empty bytes) _ _ (λ e. same) (λ e. known)

-- A step for another client leaves the client as it was.
pub spared :
    (id key : Bytes) (c : Client) (p q : UdpProxy)
    → key ≢ id
    → find id q.clients ≡ find id p.clients
    → Spared id c.addr p q
    → Serving id c p
    → Serving id c q
spared id key c p q h f w v = record {
  found = f ∙ v.found;
  opened = w.sock ∙ v.opened;
  apart = w.apart;
}

pub ended :
    (id key : Bytes) (a : Address) (p : UdpProxy)
    → All (Apart id a) p.clients
    → Spared id a p (on_stream_close key p)
unfolding on_stream_close
ended id key a p v = record {
  sock = refl;
  sent = refl;
  apart = erase-All (Apart id a) key p.clients v;
}

pub ended_find :
    (id key : Bytes) (p : UdpProxy)
    → key ≢ id
    → find id (on_stream_close key p).clients ≡ find id p.clients
unfolding on_stream_close
ended_find id key p h = find-erase key id p.clients h
