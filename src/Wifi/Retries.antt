-- ===== src/Wifi/Retries.antt =====
-- How often the station connects again.
use esp32_components.Base.{
  ℕ, suc, ◌+◌, ◌≤◌, ◌<◌, ◌≡◌, refl, ap, ◌∙◌, arith, min, true, List, [], ◌∷◌, if◌then◌else◌, ltb,
  Outcome, returns, ◌>>=◌, Returns, returning, Returns-bind, Returns-mono, Bool-cases, Returns-if,
  inl, inr, not, ◌&&◌, ◌==◌, ap₂,
}
use esp32_components.Wifi.{
  Wifi, StaticIp, Netif, Event, sta_start, sta_connected, sta_disconnected, sta_got_ip, other,
  maximum_retry, WifiConfig, ipaddr_none, set_dns_server, set_static_ip, event_handler,
}

unfoldable pub handle_all : (List ℕ → ℕ) → Wifi → List Event → Outcome Wifi
handle_all ipaddr_addr w [] = returns w
handle_all ipaddr_addr w (e ∷ es) = do
  w' ← event_handler ipaddr_addr w e
  handle_all ipaddr_addr w' es

unfoldable pub starts : List Event → ℕ
starts [] = 0
starts (sta_start ∷ es) = suc (starts es)
starts (sta_connected r ∷ es) = starts es
starts (sta_disconnected ∷ es) = starts es
starts (sta_got_ip ∷ es) = starts es
starts (other ∷ es) = starts es

unfoldable pub losses : List Event → ℕ
losses [] = 0
losses (sta_start ∷ es) = losses es
losses (sta_connected r ∷ es) = losses es
losses (sta_disconnected ∷ es) = suc (losses es)
losses (sta_got_ip ∷ es) = losses es
losses (other ∷ es) = losses es

-- No address is got, and the name server can be set.
abbrev pub Unaddressed : List Event → Type 0
Unaddressed [] = Unit {0}
Unaddressed (sta_start ∷ es) = Unaddressed es
Unaddressed (sta_connected r ∷ es) = (r.dns_ok ≡ true) × Unaddressed es
Unaddressed (sta_disconnected ∷ es) = Unaddressed es
Unaddressed (sta_got_ip ∷ es) = ⊥
Unaddressed (other ∷ es) = Unaddressed es

-- What events leave of a state: the retries are used up one by one, each loss beyond them is a failure.
pub record Retried (w w' : Wifi) (es : List Event) : Type 0 where
  pub retries : w'.retry_count ≡ min maximum_retry (w.retry_count + losses es)
  pub calls : w'.connects + w.retry_count ≡ w.connects + starts es + w'.retry_count
  pub gives_up :
      w'.failed_flag
      ≡ (if ltb maximum_retry (w.retry_count + losses es) then true else w.failed_flag)
  pub waits : w'.connected_flag ≡ w.connected_flag

-- What leaves the retries, the calls and the flags as they are.
abbrev Quiet : Wifi → Wifi → Type 0
Quiet w w' =
    (w'.retry_count ≡ w.retry_count)
    × (w'.connects ≡ w.connects)
    × (w'.failed_flag ≡ w.failed_flag)
    × (w'.connected_flag ≡ w.connected_flag)

netif_only :
    (w : Wifi) {m : Outcome Netif}
    → Returns (λ n. Unit {0}) m
    → Returns (Quiet w) (m >>= λ n. returns (record w { netif = n }))
netif_only w (returning p) = returning (refl, refl, refl, refl)

set_static_ip-Returns :
    (ipaddr_addr : List ℕ → ℕ) (cfg : WifiConfig) (r : StaticIp) (n : Netif)
    → r.dns_ok ≡ true
    → Returns (λ n. Unit {0}) (set_static_ip ipaddr_addr cfg r n)
unfolding set_static_ip set_dns_server
set_static_ip-Returns ipaddr_addr cfg r n e =
    Returns-if (not r.stop_ok) (λ _. returning tt)
      (λ _.
        Returns-if (not r.ip_ok) (λ _. returning tt)
          (λ _.
            Returns-if (not (ipaddr_addr cfg.gw == 0) && not (ipaddr_addr cfg.gw == ipaddr_none))
              (λ _. Returns-if r.dns_ok (λ _. returning tt) (λ f. absurd (cc)))
              (λ _. returning tt)))

sta_connected-Quiet :
    (ipaddr_addr : List ℕ → ℕ) (w : Wifi) (r : StaticIp)
    → r.dns_ok ≡ true
    → Returns (Quiet w) (event_handler ipaddr_addr w (sta_connected r))
unfolding event_handler
sta_connected-Quiet ipaddr_addr w r e =
    Returns-if (not w.current_cfg.use_dhcp)
      (λ _. netif_only w (set_static_ip-Returns ipaddr_addr w.current_cfg r w.netif e))
      (λ _. returning (refl, refl, refl, refl))

nothing_lost : (w : Wifi) → w.retry_count ≤ maximum_retry → Retried w w []
unfolding starts losses
nothing_lost w l = record {
  retries = ground arith;
  calls = omega arith;
  gives_up = ground arith;
  waits = refl;
}

retry-Retried :
    (w w' : Wifi) (es : List Event)
    → w.retry_count < maximum_retry
    → Retried (record w { retry_count = w.retry_count + 1; connects = w.connects + 1 }) w' es
    → Retried w w' (sta_disconnected ∷ es)
unfolding starts losses
retry-Retried w w' es l r =
    let same : w.retry_count + 1 + losses es ≡ w.retry_count + suc (losses es) = omega arith in
    record {
      retries = r.retries ∙ ap (λ n. min maximum_retry n) same;
      calls = omega (arith, r.calls);
      gives_up = r.gives_up ∙ ap (λ n. if ltb maximum_retry n then true else w.failed_flag) same;
      waits = r.waits;
    }

failed-Retried :
    (w w' : Wifi) (es : List Event)
    → w.retry_count ≡ maximum_retry
    → Retried (record w { failed_flag = true }) w' es
    → Retried w w' (sta_disconnected ∷ es)
unfolding starts losses
failed-Retried w w' es l r = record {
  retries = r.retries ∙ ground arith;
  calls = omega (arith, r.calls);
  gives_up = r.gives_up ∙ ground arith;
  waits = r.waits;
}

start-Retried :
    (w w' : Wifi) (es : List Event)
    → Retried (record w { connects = w.connects + 1 }) w' es
    → Retried w w' (sta_start ∷ es)
unfolding starts losses
start-Retried w w' es r = record {
  retries = r.retries;
  calls = omega (arith, r.calls);
  gives_up = r.gives_up;
  waits = r.waits;
}

Quiet-Retried :
    (w w₁ w' : Wifi) (r : StaticIp) (es : List Event)
    → Quiet w w₁
    → Retried w₁ w' es
    → Retried w w' (sta_connected r ∷ es)
unfolding starts losses
Quiet-Retried w w₁ w' r es (a, b, c, d) q = record {
  retries = q.retries ∙ ap (λ n. min maximum_retry (n + losses es)) a;
  calls = omega (arith, q.calls, a, b);
  gives_up = q.gives_up ∙ ap₂ (λ n f. if ltb maximum_retry (n + losses es) then true else f) a c;
  waits = q.waits ∙ d;
}

other-Retried : (w w' : Wifi) (es : List Event) → Retried w w' es → Retried w w' (other ∷ es)
unfolding starts losses
other-Retried w w' es r = record {
  retries = r.retries;
  calls = r.calls;
  gives_up = r.gives_up;
  waits = r.waits;
}

-- Until an address is got, a station that starts with no more retries than the maximum connects once
-- for each start and once for each loss of the connection until the retries are used up; it has failed
-- exactly if it had before or the losses are more than the retries left, and is not taken for connected.
-- The handler always returns, if the name server can be set.
pub handle_all-Retried :
    (ipaddr_addr : List ℕ → ℕ) (es : List Event) (w : Wifi)
    → w.retry_count ≤ maximum_retry
    → Unaddressed es
    → Returns (λ w'. Retried w w' es) (handle_all ipaddr_addr w es)
unfolding handle_all event_handler
handle_all-Retried ipaddr_addr [] w l u = returning (nothing_lost w l)
handle_all-Retried ipaddr_addr (sta_start ∷ es) w l u =
    Returns-mono (handle_all-Retried ipaddr_addr es (record w { connects = w.connects + 1 }) l u)
      (λ w' r. start-Retried w w' es r)
handle_all-Retried ipaddr_addr (sta_connected r ∷ es) w l u =
    Returns-bind _ (sta_connected-Quiet ipaddr_addr w r u.0) (λ w₁ q.
      Returns-mono (handle_all-Retried ipaddr_addr es w₁ (omega (arith, q.0)) u.1)
        (λ w' t. Quiet-Retried w w₁ w' r es q t))
handle_all-Retried ipaddr_addr (sta_disconnected ∷ es) w l u =
    elim (Bool-cases (ltb w.retry_count maximum_retry)) [
      | inl more ↦ rw more (
          Returns-mono
            (handle_all-Retried ipaddr_addr es
              (record w { retry_count = w.retry_count + 1; connects = w.connects + 1 })
              (ground arith) u)
            (λ w' r. retry-Retried w w' es (ground arith) r))
      | inr spent ↦ rw spent (
          Returns-mono (handle_all-Retried ipaddr_addr es (record w { failed_flag = true }) l u)
            (λ w' r. failed-Retried w w' es (ground arith) r))
    ]
handle_all-Retried ipaddr_addr (sta_got_ip ∷ es) w l u = elim u [ ]
handle_all-Retried ipaddr_addr (other ∷ es) w l u =
    Returns-mono (handle_all-Retried ipaddr_addr es w l u) (λ w' r. other-Retried w w' es r)
