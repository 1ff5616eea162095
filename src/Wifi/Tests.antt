-- ===== src/Wifi/Tests.antt =====
-- An access point that is lost six times.
use esp32_components.Base.{
  ◌≡◌, refl, true, false, List, ◌∷◌, none, arith, replicate, faults, Returns,
}
use esp32_components.Wifi.{
  WifiConfig, Wifi, Event, sta_start, sta_connected, sta_disconnected, other, copy_text,
}
use esp32_components.Wifi.Retries.{handle_all, Retried, handle_all-Retried}

abbrev empty_cfg : WifiConfig
empty_cfg = record {
  ssid = replicate 32 0;
  password = replicate 64 0;
  use_dhcp = false;
  ip = replicate 32 0;
  netmask = replicate 32 0;
  gw = replicate 32 0;
}

abbrev station : Wifi
station = record {
  current_cfg = empty_cfg;
  retry_count = 0;
  connected_flag = false;
  failed_flag = false;
  netif = record { dhcp = true; ip_info = none; dns = none };
  connects = 0;
}

abbrev events : List Event
events =
    sta_start
    ∷ sta_disconnected
    ∷ sta_connected (record { stop_ok = true; ip_ok = true; dns_ok = true })
    ∷ other
    ∷ replicate 5 sta_disconnected

handle_all-Retried_example :
    Returns (λ w'. Retried station w' events) (handle_all (λ text. 7) station events)
handle_all-Retried_example = handle_all-Retried (λ text. 7) events station (omega arith) (refl, _)

-- A name that is as long as the array leaves no terminator; a longer one is written past its end.
long_name : copy_text empty_cfg.ssid (replicate 33 65) ≡ faults
unfolding copy_text
long_name = refl
