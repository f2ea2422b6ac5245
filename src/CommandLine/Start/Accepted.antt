-- ===== src/CommandLine/Start/Accepted.antt =====
-- With what configurations `main` creates a tunnel.
use mqtt_tunnel.Base.{
  ◌≡◌, refl, sym, ap, subst, ◌∙◌, ◌⊎◌, inl, inr, Bool, true, false, not, none, [], arith,
  Bool-cases, Option-cases, if-cases, Text, codes, text_eq, pos, ltb_ℤ,
}
use mqtt_tunnel.Config.{Config}
use mqtt_tunnel.Config.Url.{BrokerInfo, Parsed, info, rejected, parse_broker_url}
use mqtt_tunnel.Config.Topic.{validate_topic}
use mqtt_tunnel.Config.File.{
  Host, LockReply, lock_taken, lock_busy, lock_error, Loaded, loaded, not_loaded, read_config,
}
use mqtt_tunnel.World.Effects.{Env}
use mqtt_tunnel.CommandLine.{expand_server_addr}
use mqtt_tunnel.CommandLine.Keepalive.{Platform, with_timeout, server_keepalive, client_keepalive}
use mqtt_tunnel.CommandLine.Keepalive.Laws.{OneKeepalive, server_keepalive-OneKeepalive}
use mqtt_tunnel.CommandLine.Start.{
  Args, Start, exits, runs, is_server, is_example, with_keepalive, with_server_addr, finished,
  check_topic, check_url, check_config, when_locked, with_config, start_up, acquire_server_lock,
  resolve_config_path, effective_file,
}

-- A configuration that a tunnel can be created with.
pub record IsReady (env : Env) (c : Config) : Type 0 where
  pub good_topic : validate_topic env c.topic ≡ none
  pub own_topic : is_example c.topic ≡ false
  pub good_url : (i : BrokerInfo) × (parse_broker_url env c.broker_url ≡ info i)
  pub positive_timeout : ltb_ℤ (pos 0) c.connection_timeout ≡ true
  pub one_keepalive : (is_server c ≡ false) ⊎ OneKeepalive c

with_keepalive-fields :
    (p : Platform) (c : Config)
    → ((with_keepalive p c).topic ≡ c.topic)
      × ((with_keepalive p c).broker_url ≡ c.broker_url)
      × ((with_keepalive p c).connection_timeout ≡ c.connection_timeout)
      × ((with_keepalive p c).server_addr ≡ c.server_addr)
unfolding server_keepalive client_keepalive
with_keepalive-fields p c = ground arith

with_server_addr-fields :
    (c : Config)
    → ((with_server_addr c).topic ≡ c.topic)
      × ((with_server_addr c).broker_url ≡ c.broker_url)
      × ((with_server_addr c).connection_timeout ≡ c.connection_timeout)
      × (is_server (with_server_addr c) ≡ is_server c)
unfolding expand_server_addr
with_server_addr-fields c = ground arith

with_timeout-fields :
    (c : Config)
    → (ltb_ℤ (pos 0) (with_timeout c).connection_timeout ≡ true)
      × (is_server (with_timeout c) ≡ is_server c)
unfolding with_timeout
with_timeout-fields c = ground arith

with_keepalive-OneKeepalive :
    (p : Platform) (c : Config) → (is_server c ≡ false) ⊎ OneKeepalive (with_keepalive p c)
with_keepalive-OneKeepalive p c = elim (Bool-cases (is_server c)) [
  | inl s ↦ inr (rw s (server_keepalive-OneKeepalive p c))
  | inr s ↦ inl s
]

-- What holds if `main` goes on behind its checks.
abbrev pub GoesOn : Env → Text → Bool → Start → Type 0
GoesOn env path server (exits e) = Unit
GoesOn env path server (runs q c s) =
    (q ≡ path) × (s ≡ server) × (is_server c ≡ server) × IsReady env c

finished-GoesOn :
    (env : Env) (p : Platform) (path : Text) (c : Config) {i : BrokerInfo}
    → validate_topic env c.topic ≡ none
    → is_example c.topic ≡ false
    → parse_broker_url env c.broker_url ≡ info i
    → ltb_ℤ (pos 0) c.connection_timeout ≡ true
    → GoesOn env path (is_server c) (finished p path c)
finished-GoesOn env p path c {i} good own url positive =
    let c' = with_server_addr c in
    let (t1, u1, o1, s1) = with_server_addr-fields c in
    let (t2, u2, o2, s2) = with_keepalive-fields p c' in
    let mode : is_server (with_keepalive p c') ≡ is_server c' =
      ap (λ (a : Text). not (text_eq a [])) s2 in
    (
      refl,
      s1,
      mode ∙ s1,
      record {
        good_topic = ap (validate_topic env) (t2 ∙ t1) ∙ good;
        own_topic = ap is_example (t2 ∙ t1) ∙ own;
        good_url = (i, ap (parse_broker_url env) (u2 ∙ u1) ∙ url);
        positive_timeout = ap (ltb_ℤ (pos 0)) (o2 ∙ o1) ∙ positive;
        one_keepalive = elim (with_keepalive-OneKeepalive p c') [
          | inl no_server ↦ inl (mode ∙ no_server)
          | inr one ↦ inr one
        ];
      },
    )

check_topic-GoesOn :
    (env : Env) (p : Platform) (path : Text) (c : Config) {i : BrokerInfo}
    → parse_broker_url env c.broker_url ≡ info i
    → ltb_ℤ (pos 0) c.connection_timeout ≡ true
    → GoesOn env path (is_server c) (check_topic env p path c)
unfolding check_topic
check_topic-GoesOn env p path c url positive =
    let P = GoesOn env path (is_server c) in
    if-cases P (text_eq c.topic []) (λ _. tt)
      λ _. elim (Option-cases (validate_topic env c.topic)) [
        | inl good ↦
            rw (good, check_topic)
              (if-cases P (is_example c.topic) (λ _. tt)
                λ own. finished-GoesOn env p path c good own url positive)
        | inr (x, bad) ↦ rw (bad, check_topic) tt
      ]

check_url-GoesOn :
    (env : Env) (p : Platform) (path : Text) (c : Config) (r : Parsed)
    → parse_broker_url env c.broker_url ≡ r
    → ltb_ℤ (pos 0) c.connection_timeout ≡ true
    → GoesOn env path (is_server c) (check_url env p path c r)
check_url-GoesOn env p path c (rejected e) url positive = tt
check_url-GoesOn env p path c (info i) url positive =
    if-cases (GoesOn env path (is_server c)) (text_eq c.broker_url []) (λ _. tt)
      λ _. check_topic-GoesOn env p path c url positive

check_config-GoesOn :
    (env : Env) (p : Platform) (path : Text) (c : Config)
    → GoesOn env path (is_server c) (check_config env p path c)
unfolding check_config
check_config-GoesOn env p path c =
    let (positive, same) = with_timeout-fields c in
    subst (λ (s : Bool). GoesOn env path s (check_config env p path c)) same
      (check_url-GoesOn env p path (with_timeout c) _ refl positive)

-- As before, and a server holds the lock of its file.
abbrev pub Ready : Env → Host → Text → Start → Type 0
Ready env h path (exits e) = Unit
Ready env h path (runs q c s) =
    (q ≡ path)
    × (s ≡ is_server c)
    × IsReady env c
    × ((s ≡ false) ⊎ (acquire_server_lock h path ≡ lock_taken))

ready :
    (env : Env) (h : Host) (path : Text) (server : Bool) (st : Start)
    → GoesOn env path server st
    → (server ≡ false) ⊎ (acquire_server_lock h path ≡ lock_taken)
    → Ready env h path st
ready env h path server (exits e) g l = tt
ready env h path server (runs q c s) (e, m, n, r) l =
    (e, m ∙ sym n, r, elim l [ inl x ↦ inl (m ∙ x) | inr y ↦ inr y ])

with_config-Ready :
    (env : Env) (h : Host) (p : Platform) (path : Text) (r : Loaded)
    → Ready env h path (with_config env h p path r)
with_config-Ready env h p path (not_loaded e ws) = tt
with_config-Ready env h p path (loaded c ws) =
    let next = check_config-GoesOn env p path c in
    if-cases (Ready env h path) (is_server c) (λ _. locked (acquire_server_lock h path) refl next)
      (λ client. ready env h path (is_server c) (check_config env p path c) next (inl client))
  where
    locked :
        (l : LockReply)
        → acquire_server_lock h path ≡ l
        → GoesOn env path (is_server c) (check_config env p path c)
        → Ready env h path (when_locked l (check_config env p path c))
    locked lock_taken e next =
        ready env h path (is_server c) (check_config env p path c) next (inr e)
    locked lock_busy e next = tt
    locked lock_error e next = tt

start_up-Ready :
    (env : Env) (h : Host) (p : Platform) (a : Args)
    → Ready env h (resolve_config_path h (effective_file a)) (start_up env h p a)
unfolding start_up
start_up-Ready env h p a =
    let path = resolve_config_path h (effective_file a) in
    let P = Ready env h path in
    if-cases P a.generate (λ _. tt)
      λ _.
        if-cases P (text_eq (effective_file a) (codes "help")) (λ _. tt)
          λ _.
            if-cases P (text_eq (effective_file a) []) (λ _. tt)
              λ _. with_config-Ready env h p path (read_config h path)

-- If `main` creates a tunnel, then with a valid topic that is none of the examples, with a broker URL
-- that parses, with a positive timeout, and in the mode that the configuration asks for; a server
-- holds the lock of its configuration file and has exactly one keepalive on, whatever the file says:
-- an mqtt-keepalive that is not from 1 to 3599 counts as not given.
pub start_up-runs :
    (env : Env) (h : Host) (p : Platform) (a : Args) (path : Text) (c : Config) (s : Bool)
    → start_up env h p a ≡ runs path c s
    → (path ≡ resolve_config_path h (effective_file a))
      × (s ≡ is_server c)
      × IsReady env c
      × ((s ≡ false) ⊎ (acquire_server_lock h path ≡ lock_taken))
start_up-runs env h p a path c s e =
    let (q, m, r, l) = rw e at (start_up-Ready env h p a) in
    (q, m, r, elim l [ inl x ↦ inl x | inr y ↦ inr (ap (acquire_server_lock h) q ∙ y) ])
