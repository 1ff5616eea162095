-- ===== src/LfsPartRpc/Paging.antt =====
-- A directory that is listed page by page.
use esp32_components.Base.{ℕ, true, List, ◌++◌, length, take, drop}
use esp32_components.LfsHelpers.{LfsInfo}
use esp32_components.LfsPartRpc.Cache.{LfsCallset, entries_max}
use esp32_components.LfsPartRpc.Access.{Listing}
use esp32_components.LfsPartRpc.Listing.{stored_all}

-- The entries of a directory that a page from `start` on shows.
abbrev pub page : (start : ℕ) → List LfsInfo → List LfsInfo
page start is = stored_all (take entries_max (drop start is))

-- The reply with a page.
abbrev pub page_reply : LfsCallset → LfsCallset → List LfsInfo → List LfsInfo → LfsCallset
page_reply call reply is rest = record reply {
  which_msg = 10;
  valid = true;
  num_entries = length is;
  start_idx = call.start_idx;
  info_array = page call.start_idx is ++ rest;
  info_array_count = length (page call.start_idx is);
}
