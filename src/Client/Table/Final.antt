-- ===== src/Client/Table/Final.antt =====
-- A client that has been destroyed stays so, whatever still arrives.
use holesail_cpp.Base.{
  ℕ, suc, if◌then◌else◌, Bool, true, false, Option, none, some, List, [], ◌∷◌, Bytes, length, ◌≡◌,
  refl, ap, ◌∙◌, arith, Bool-cases, Option-cases, inl, inr, then_branch, else_branch,
}
use holesail_cpp.Client.{Config, mutable_cb, store}
use holesail_cpp.Client.Conn.{Conn}
use holesail_cpp.TcpProxy
use holesail_cpp.Record.{decode_record}
use holesail_cpp.UdpProxy
use holesail_cpp.UdpProxy.{UdpProxy}
use holesail_cpp.Client.Table.{
  destroyed, HolesailClient, new_client, Listening, mutable_done_cb, value_cb, add_conn,
  on_local_connection, open_udp_stream, act, pause, resume, cancel_query, tear_down, destroy,
  free_query, start_proxy, proxy_started, listen_udp, listen_tcp, tell_listening, shut_all, connect,
}
use holesail_cpp.Client.Table.History.{
  Event, value, query_done, accepts, opens_udp, conn_event, pauses, resumes, destroys, step, run,
  run_inv, cancel_query-freed,
}
use holesail_cpp.Client.Table.Closed.{proxied_conn-sock, proxied_all-sock, length-on_conn}

-- A destroyed client has no listening socket left.
pub record Dead (c : HolesailClient) : Type 0 where
  pub flag : (c.lookup).destroyed ≡ true
  pub stays : c.state ≡ destroyed
  pub tcp : (c.tcp_proxy).handle ≡ false
  pub udp : (c.udp_proxy).sock ≡ false

-- What is left of a client between two events: alive, or dead.
pub record Fate (c : HolesailClient) : Type 0 where
  pub fate : (c.lookup).destroyed ≡ true → Dead c

tear_down-Dead : (c : HolesailClient) → (c.lookup).destroyed ≡ true → Dead (tear_down c)
unfolding tear_down TcpProxy.close UdpProxy.close
tear_down-Dead c h = record {
  flag = h;
  stays = refl;
  tcp = ground arith;
  udp = proxied_all-sock c.conns _ (ground arith);
}

cancel_query_flag :
    (b : Bool) (r : Listening) (c : HolesailClient)
    → (c.lookup).destroyed ≡ true
    → ((cancel_query b r c).lookup).destroyed ≡ true
cancel_query_flag b r c h = rw (cancel_query-freed b r c h) (ground arith)

pub destroy-Dead : (b : Bool) (r : Listening) (c : HolesailClient) → Fate c → Dead (destroy b r c)
unfolding destroy
destroy-Dead b r c v = elim (Bool-cases (c.lookup).destroyed) [
  | inl e ↦ then_branch Dead (c.lookup).destroyed c _ e (v.fate e)
  | inr e ↦ else_branch Dead (c.lookup).destroyed c _ e (
      tear_down-Dead _
        (cancel_query_flag b r (record c { lookup = record c.lookup { destroyed = true } }) refl))
]

-- An event on a dead client.
step-Dead :
    (e : Event) (c : HolesailClient)
    → Dead c
    → Dead (step e c) × (length (step e c).conns ≡ length c.conns)
unfolding step
step-Dead (value seq none) c v = unfold value_cb mutable_cb in (v, refl)
step-Dead (value seq (some x)) c v = unfold value_cb mutable_cb in (ground arith, refl)
step-Dead (query_done r) c v = unfold mutable_done_cb free_query in (ground arith, ground arith)
step-Dead (accepts rc) c v = unfold on_local_connection in (ground arith, ground arith)
step-Dead (opens_udp source rc) c v = unfold open_udp_stream in (ground arith, ground arith)
step-Dead (conn_event id e) c v =
    unfold act in
    (
      record {
        flag = v.flag;
        stays = v.stays;
        tcp = v.tcp;
        udp = proxied_conn-sock id _ c.conns c.udp_proxy v.udp;
      },
      length-on_conn id _ c.conns,
    )
step-Dead pauses c v = unfold pause in (ground arith, ground arith)
step-Dead resumes c v = unfold resume in (ground arith, ground arith)
step-Dead (destroys b r) c v = unfold destroy in (ground arith, ground arith)

run-Dead :
    (es : List Event) (c : HolesailClient)
    → Dead c
    → Dead (run es c) × (length (run es c).conns ≡ length c.conns)
unfolding run
run-Dead [] c v = (v, refl)
run-Dead (e ∷ es) c v =
    let (still, same) = step-Dead e c v in
    let (last, count) = run-Dead es (step e c) still in (last, count ∙ same)

start_proxy-flag :
    (r : Listening) (c : HolesailClient)
    → ((start_proxy r c).1.lookup).destroyed ≡ (c.lookup).destroyed
unfolding start_proxy proxy_started listen_udp listen_tcp tell_listening
start_proxy-flag r c = ground arith

mutable_done_cb-flag :
    (r : Listening) (c : HolesailClient)
    → ((mutable_done_cb r c).lookup).destroyed ≡ (c.lookup).destroyed
unfolding mutable_done_cb free_query
mutable_done_cb-flag r c =
    let freed = free_query c in
    let same : (freed.lookup).destroyed ≡ (c.lookup).destroyed = ground arith in
    ground (arith, start_proxy-flag r freed)

value_cb-flag :
    (seq : ℕ) (v : Option Bytes) (c : HolesailClient)
    → ((value_cb seq v c).lookup).destroyed ≡ (c.lookup).destroyed
unfolding value_cb mutable_cb
value_cb-flag seq none c = refl
value_cb-flag seq (some x) c = elim (Option-cases (decode_record x)) [
  | inl e ↦ unfold store in ground arith
  | inr (rec, e) ↦ unfold store in ground arith
]

query_done_flag :
    (r : Listening) (c : HolesailClient)
    → ((if c.query then mutable_done_cb r c else c).lookup).destroyed ≡ (c.lookup).destroyed
query_done_flag r c = ground (arith, mutable_done_cb-flag r c)

differ : (a b : Bool) → a ≡ b → b ≡ false → a ≡ true → ⊥
differ a b e f t = cc

-- Only `destroy` sets the flag.
awake_step :
    (e : Event) (c : HolesailClient) → Fate c → (c.lookup).destroyed ≡ false → Fate (step e c)
unfolding step
awake_step (value seq x) c v h = record {
  fate = λ d. absurd (differ _ _ (value_cb-flag seq x c) h d);
}
awake_step (query_done r) c v h = record {
  fate = λ d. absurd (differ _ _ (query_done_flag r c) h d);
}
awake_step (accepts rc) c v h =
    unfold on_local_connection add_conn in record { fate = λ d. ground arith }
awake_step (opens_udp source rc) c v h =
    unfold open_udp_stream add_conn in record { fate = λ d. ground arith }
awake_step (conn_event id e) c v h = unfold act in record { fate = λ d. ground arith }
awake_step pauses c v h = unfold pause in record { fate = λ d. ground arith }
awake_step resumes c v h = unfold resume in record { fate = λ d. ground arith }
awake_step (destroys b r) c v h = record { fate = λ d. destroy-Dead b r c v }

pub step-Fate : (e : Event) (c : HolesailClient) → Fate c → Fate (step e c)
step-Fate e c v = elim (Bool-cases (c.lookup).destroyed) [
  | inl h ↦ record { fate = λ d. (step-Dead e c (v.fate h)).0 }
  | inr h ↦ awake_step e c v h
]

pub connect-Fate :
    (config : Config) (dht invalid q callback : Bool) (r : Listening)
    → Fate (connect q r callback (new_client config dht invalid)).1
unfolding connect new_client
connect-Fate config dht true q callback r = record { fate = λ d. absurd (cc) }
connect-Fate config false false q callback r = record { fate = λ d. absurd (cc) }
connect-Fate config true false true callback r = record { fate = λ d. absurd (cc) }
connect-Fate config true false false callback r = record {
  fate = λ d. absurd (differ _ _ (start_proxy-flag r _) refl d);
}

length-shut_all : (cs : List Conn) → length (shut_all cs) ≡ length cs
unfolding shut_all
length-shut_all [] = refl
length-shut_all (c ∷ cs) = ap suc (length-shut_all cs)

length-destroy :
    (b : Bool) (r : Listening) (c : HolesailClient) → length (destroy b r c).conns ≡ length c.conns
unfolding destroy tear_down
length-destroy b r c =
    let doomed : HolesailClient = record c { lookup = record c.lookup { destroyed = true } } in
    let same : (cancel_query b r doomed).conns ≡ c.conns =
      rw (cancel_query-freed b r doomed refl) (ground arith) in
    elim (Bool-cases (c.lookup).destroyed) [
      | inl e ↦
          then_branch (λ (d : HolesailClient). length d.conns ≡ length c.conns) (c.lookup).destroyed
            _ _ e refl
      | inr e ↦
          else_branch (λ (d : HolesailClient). length d.conns ≡ length c.conns) (c.lookup).destroyed
            _ _ e (length-shut_all (cancel_query b r doomed).conns ∙ ap length same)
    ]

-- Once a client is destroyed, then whatever still arrives, it stays destroyed with no listening socket of
-- either kind, and no further connection is made.
pub destroyed_for_good :
    (config : Config) (dht invalid q callback : Bool) (r : Listening) (before after : List Event)
    (at_once : Bool) (s : Listening)
    → Dead (
        run after
          (destroy at_once s (run before (connect q r callback (new_client config dht invalid)).1)))
      × (length
            (run after (
              destroy at_once s
                (run before (connect q r callback (new_client config dht invalid)).1))).conns
          ≡ length (run before (connect q r callback (new_client config dht invalid)).1).conns)
destroyed_for_good config dht invalid q callback r before after at_once s =
    let c = run before (connect q r callback (new_client config dht invalid)).1 in
    let v = run_inv Fate step-Fate before _ (connect-Fate config dht invalid q callback r) in
    let (dead, count) = run-Dead after (destroy at_once s c) (destroy-Dead at_once s c v) in
    (dead, count ∙ length-destroy at_once s c)
