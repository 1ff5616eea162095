-- ===== src/Wifi.antt =====
-- WifiConnect/WifiConnect.c: the connection to an access point. What the calls of ESP-IDF return is an
-- argument of what calls them; an error code is a number, 0 being ESP_OK.
pub mod Retries
mod Tests
use esp32_components.Base.{
  ℕ, zero, suc, ◌+◌, Bool, true, false, not, ◌&&◌, List, [], ◌∷◌, Option, none, some, ◌==◌,
  if◌then◌else◌, ltb, leb, length, splice, Outcome, returns, faults, ◌>>=◌,
}

abbrev pub maximum_retry : ℕ
maximum_retry = 4

-- Texts are arrays of bytes.
pub record WifiConfig : Type 0 where
  pub ssid : List ℕ
  pub password : List ℕ
  pub use_dhcp : Bool
  pub ip : List ℕ
  pub netmask : List ℕ
  pub gw : List ℕ

-- What is set of the network interface.
pub record Netif : Type 0 where
  pub dhcp : Bool
  pub ip_info : Option (ℕ × ℕ × ℕ)
  pub dns : Option ℕ

-- The static variables, the interface, and the calls of esp_wifi_connect() so far. The flags are those
-- of the event group.
pub record Wifi : Type 0 where
  pub current_cfg : WifiConfig
  pub retry_count : ℕ
  pub connected_flag : Bool
  pub failed_flag : Bool
  pub netif : Netif
  pub connects : ℕ

-- IPADDR_NONE, which ipaddr_addr() gives for a text that is no address.
abbrev pub ipaddr_none : ℕ
ipaddr_none = 4294967295

-- An error of esp_netif_set_dns_info() aborts.
unfoldable pub set_dns_server : Netif → (addr : ℕ) → (set_ok : Bool) → Outcome Netif
set_dns_server n addr set_ok =
    if not (addr == 0) && not (addr == ipaddr_none)
    then if set_ok then returns (record n { dns = some addr }) else faults
    else returns n

-- Whether the calls that stop DHCP, set the address and set the name server succeed is given.
pub record StaticIp : Type 0 where
  pub stop_ok : Bool
  pub ip_ok : Bool
  pub dns_ok : Bool

unfoldable pub set_static_ip :
    (ipaddr_addr : List ℕ → ℕ) → WifiConfig → StaticIp → Netif → Outcome Netif
unfolding set_dns_server
set_static_ip ipaddr_addr cfg r n =
    let stopped : Netif = record n { dhcp = false } in
    let addressed : Netif = record stopped {
      ip_info = some (ipaddr_addr cfg.ip, ipaddr_addr cfg.netmask, ipaddr_addr cfg.gw);
    } in
    let rest = set_dns_server addressed (ipaddr_addr cfg.gw) r.dns_ok in
    if not r.stop_ok then returns n else if not r.ip_ok then returns stopped else rest

-- The events that the handler knows, and the others.
pub data Event : Type 0 where
  sta_start sta_disconnected sta_got_ip other : Event
  sta_connected : StaticIp → Event

module _ (ipaddr_addr : List ℕ → ℕ) where
  -- The result of set_static_ip() is not used.
  unfoldable pub event_handler : Wifi → Event → Outcome Wifi
  unfolding set_static_ip
  event_handler w sta_start = returns (record w { connects = w.connects + 1 })
  event_handler w (sta_connected r) =
      if not w.current_cfg.use_dhcp
      then (do
        n ← set_static_ip ipaddr_addr w.current_cfg r w.netif
        returns (record w { netif = n }))
      else returns w
  event_handler w sta_disconnected =
      if ltb w.retry_count maximum_retry
      then returns (record w { retry_count = w.retry_count + 1; connects = w.connects + 1 })
      else returns (record w { failed_flag = true })
  event_handler w sta_got_ip = returns (record w { retry_count = 0; connected_flag = true })
  event_handler w other = returns w

-- `memcpy(dst, src, strlen(src))`, where `src` has no terminator.
unfoldable pub copy_text : List ℕ → List ℕ → Outcome (List ℕ)
copy_text dst src = if leb (length src) (length dst) then returns (splice dst 0 src) else faults

unfoldable pub set_config : WifiConfig → WifiConfig → Outcome WifiConfig
unfolding copy_text
set_config cfg new = do
  ssid ← copy_text cfg.ssid new.ssid
  password ← copy_text cfg.password new.password
  ip ← copy_text cfg.ip new.ip
  netmask ← copy_text cfg.netmask new.netmask
  gw ← copy_text cfg.gw new.gw
  returns (record {
    ssid = ssid;
    password = password;
    use_dhcp = new.use_dhcp;
    ip = ip;
    netmask = netmask;
    gw = gw;
  })

-- The calls of ESP-IDF in their order, each with what it returns: the first error is the result, and
-- the calls after it are not made. The results of the calls that are not made are left over.
unfoldable pub first_error : List ℕ → ℕ × List ℕ
first_error [] = (0, [])
first_error (ret ∷ rets) = let rest = first_error rets in if ret == 0 then rest else (ret, rets)

-- The eight calls that are checked, and whether an interface is made, after the second of them. The
-- wait for a flag ends with ESP_OK whatever the flag is.
unfoldable pub wifi_connect_init :
    WifiConfig
    → WifiConfig
    → (before : List ℕ) → (sta_netif : Bool) → (after : List ℕ) → Outcome (ℕ × WifiConfig)
unfolding set_config first_error
wifi_connect_init cfg new before sta_netif after = do
  cfg' ← set_config cfg new
  let ret = (first_error before).0
  if not (ret == 0)
      then returns (ret, cfg')
      else if sta_netif
      then returns ((first_error after).0, cfg')
      else faults
