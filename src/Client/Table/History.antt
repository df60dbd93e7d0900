-- ===== src/Client/Table/History.antt =====
-- Histories of a client: what hyperdht, libuv and the owner do to it after `connect`, in any order.
use holesail_cpp.Base.{
  ℕ, suc, ◌+◌, ◌≤◌, if◌then◌else◌, Bool, true, false, Option, List, [], ◌∷◌, Bytes, ◌≡◌, refl, ap,
  arith, Bool-cases, inl, inr, then_branch, else_branch,
}
use holesail_cpp.Rc.{Rc, ok, fail}
use holesail_cpp.Client.{Config, resolve}
use holesail_cpp.Client.Conn.{Conn}
use holesail_cpp.Client.Conn.Line
use holesail_cpp.Client.Table.{
  Effect, queries, frees_query, cancels_query, calls_on_listening, HolesailClient, new_client,
  calls, Listening, listen_udp, listen_tcp, tell_listening, proxy_started, start_proxy, connect,
  free_query, mutable_done_cb, value_cb, add_conn, on_local_connection, open_udp_stream, act, pause,
  resume, cancel_query, tear_down, destroy,
}

-- A callback of one connection, as Line has them.
abbrev pub conn_step : Bool → Line.Event → Conn → Conn
conn_step destroyed e conn =
    (Line.step e
      (record { conn = conn; connect = true; stream = true; destroyed = destroyed })).conn

pub data Event : Type 0 where
  value : ℕ → Option Bytes → Event
  query_done : Listening → Event
  accepts : Rc → Event
  opens_udp : Bytes → Rc → Event
  conn_event : ℕ → Line.Event → Event
  pauses : Event
  resumes : Event
  destroys : Bool → Listening → Event

-- The done callback of a query comes only while there is one.
unfoldable pub step : Event → HolesailClient → HolesailClient
step (value seq v) c = value_cb seq v c
step (query_done r) c = if c.query then mutable_done_cb r c else c
step (accepts rc) c = on_local_connection rc c
step (opens_udp source rc) c = (open_udp_stream source rc c).1
step (conn_event id e) c = act id (conn_step (c.lookup).destroyed e) c
step pauses c = pause c
step resumes c = resume c
step (destroys at_once r) c = destroy at_once r c

unfoldable pub run : List Event → HolesailClient → HolesailClient
run [] c = c
run (e ∷ es) c = run es (step e c)

pub run_inv {ℓ} :
    (P : HolesailClient → Type ℓ)
    → ((e : Event) (c : HolesailClient) → P c → P (step e c))
    → (es : List Event) (c : HolesailClient) → P c
    → P (run es c)
unfolding run
run_inv P keeps [] c h = h
run_inv P keeps (e ∷ es) c h = run_inv P keeps es (step e c) (keeps e c h)

-- How often a query was started, was freed, and the owner was told of the proxy.
abbrev pub queried : List Effect → ℕ
queried [] = 0
queried (queries ∷ es) = suc (queried es)
queried (e ∷ es) = queried es

abbrev pub freed : List Effect → ℕ
freed [] = 0
freed (frees_query ∷ es) = suc (freed es)
freed (e ∷ es) = freed es

abbrev pub told : List Effect → ℕ
told [] = 0
told (calls_on_listening rc ∷ es) = suc (told es)
told (e ∷ es) = told es

record Counts (c : HolesailClient) : Type 0 where
  freed_once : freed c.trace + (if c.query then 1 else 0) ≡ queried c.trace
  queried_once : queried c.trace ≤ 1
  told_once : told c.trace + (if c.on_listening then 1 else 0) ≤ 1

tell_listening-Counts : (rc : Rc) (c : HolesailClient) → Counts c → Counts (tell_listening rc c)
unfolding tell_listening
tell_listening-Counts rc c v = ground arith

-- The counts are of the query, the callback and the trace alone.
carried :
    {c d : HolesailClient}
    → d.query ≡ c.query
    → d.on_listening ≡ c.on_listening
    → d.trace ≡ c.trace
    → Counts c
    → Counts d
carried q o t v = ground (arith, q, o, t)

proxy_started-Counts : (p : Rc × HolesailClient) → Counts p.1 → Counts (proxy_started p).1
unfolding proxy_started
proxy_started-Counts (ok, c) v = tell_listening-Counts ok _ (carried refl refl refl v)
proxy_started-Counts (fail n, c) v = tell_listening-Counts (fail n) c v

start_proxy-Counts : (r : Listening) (c : HolesailClient) → Counts c → Counts (start_proxy r c).1
unfolding start_proxy listen_udp listen_tcp
start_proxy-Counts r c v =
    proxy_started-Counts _ (elim (Bool-cases (resolve c.config (c.lookup).newest).udp) [
      | inl e ↦
          then_branch (λ (p : Rc × HolesailClient). Counts p.1)
            (resolve c.config (c.lookup).newest).udp _ _ e (carried refl refl refl v)
      | inr e ↦
          else_branch (λ (p : Rc × HolesailClient). Counts p.1)
            (resolve c.config (c.lookup).newest).udp _ _ e (carried refl refl refl v)
    ])

connect-Counts :
    (config : Config) (dht invalid q callback : Bool) (r : Listening)
    → Counts (connect q r callback (new_client config dht invalid)).1
unfolding connect new_client
connect-Counts config dht true q callback r = ground arith
connect-Counts config false false q callback r = ground arith
connect-Counts config true false true callback r = ground arith
connect-Counts config true false false callback r = start_proxy-Counts r _ (ground arith)

free_query-Counts : (c : HolesailClient) → Counts c → Counts (free_query c)
unfolding free_query
free_query-Counts c v = ground arith

mutable_done_cb-Counts :
    (r : Listening) (c : HolesailClient) → Counts c → Counts (mutable_done_cb r c)
unfolding mutable_done_cb
mutable_done_cb-Counts r c v = elim (Bool-cases (c.lookup).destroyed) [
  | inl e ↦ then_branch Counts (c.lookup).destroyed _ _ e (free_query-Counts c v)
  | inr e ↦
      else_branch Counts (c.lookup).destroyed _ _ e
        (start_proxy-Counts r (free_query c) (free_query-Counts c v))
]

-- The query is taken out before it is cancelled, so a callback at once finds nothing to free.
late_done :
    (r : Listening) (c : HolesailClient)
    → (c.lookup).destroyed ≡ true
    → c.query ≡ false
    → mutable_done_cb r c ≡ c
unfolding mutable_done_cb free_query
late_done r c h q =
    then_branch (λ d. d ≡ c) (c.lookup).destroyed _ _ h
      (else_branch (λ d. d ≡ c) c.query _ c q refl)

pub cancel_query-freed :
    (b : Bool) (r : Listening) (c : HolesailClient)
    → (c.lookup).destroyed ≡ true
    → cancel_query b r c ≡ (
        if c.query
        then record c { query = false; trace = frees_query ∷ (cancels_query ∷ c.trace) }
        else c)
unfolding cancel_query
cancel_query-freed true r c h =
    ap (λ d. if c.query then calls frees_query d else c)
      (late_done r (calls cancels_query (record c { query = false })) h refl)
cancel_query-freed false r c h = refl

cancel_query-Counts :
    (b : Bool) (r : Listening) (c : HolesailClient)
    → (c.lookup).destroyed ≡ true
    → Counts c
    → Counts (cancel_query b r c)
cancel_query-Counts b r c h v = rw (cancel_query-freed b r c h) (ground arith)

destroy-Counts : (b : Bool) (r : Listening) (c : HolesailClient) → Counts c → Counts (destroy b r c)
unfolding destroy tear_down
destroy-Counts b r c v =
    let doomed : HolesailClient = record c { lookup = record c.lookup { destroyed = true } } in
    elim (Bool-cases (c.lookup).destroyed) [
      | inl e ↦ then_branch Counts (c.lookup).destroyed _ _ e v
      | inr e ↦
          else_branch Counts (c.lookup).destroyed _ _ e (
            carried refl refl refl (cancel_query-Counts b r doomed refl (carried refl refl refl v)))
    ]

step-Counts : (e : Event) (c : HolesailClient) → Counts c → Counts (step e c)
unfolding step
step-Counts (value seq x) c v = unfold value_cb in carried refl refl refl v
step-Counts (query_done r) c v = ground (arith, mutable_done_cb-Counts r c v)
step-Counts (accepts rc) c v = unfold on_local_connection add_conn in ground arith
step-Counts (opens_udp source rc) c v = unfold open_udp_stream add_conn in ground arith
step-Counts (conn_event id e) c v = unfold act in carried refl refl refl v
step-Counts pauses c v = unfold pause in ground arith
step-Counts resumes c v = unfold resume in ground arith
step-Counts (destroys b r) c v = destroy-Counts b r c v

-- In any history of a client, its query was freed once if it was started and is no longer held, never
-- twice even when cancelling it calls back at once, and the owner was told of the proxy at most once.
pub query_freed_once :
    (config : Config) (dht invalid q callback : Bool) (r : Listening) (es : List Event)
    → (freed (run es (connect q r callback (new_client config dht invalid)).1).trace
          + (if (run es (connect q r callback (new_client config dht invalid)).1).query
              then 1
              else 0)
        ≡ queried (run es (connect q r callback (new_client config dht invalid)).1).trace)
      × ((queried (run es (connect q r callback (new_client config dht invalid)).1).trace ≤ 1)
          × (told (run es (connect q r callback (new_client config dht invalid)).1).trace ≤ 1))
query_freed_once config dht invalid q callback r es =
    let v = run_inv Counts step-Counts es _ (connect-Counts config dht invalid q callback r) in
    (v.freed_once, (v.queried_once, omega (arith, v.told_once)))
