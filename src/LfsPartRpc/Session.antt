-- ===== src/LfsPartRpc/Session.antt =====
-- Sessions of messages on the server, against those of requests on the table.
use esp32_components.Base.{
  ℕ, List, [], ◌∷◌, Option, none, some, replicate, Outcome, returns, fails, faults, unfinished,
  ◌>>=◌,
}
use esp32_components.ProtoRpc.{StatusEnum}
use esp32_components.LfsPart.{Partition, Registry}
use esp32_components.LfsHelpers.{Littlefs}
use esp32_components.LfsPartRpc.Cache.{LfsCallset, Call, max_open_descriptors}
use esp32_components.LfsPartRpc.Handlers.{resolver, find_handler}
use esp32_components.LfsPartRpc.Table.{Table, Request}
use esp32_components.LfsPartRpc.Requests.{requests}
use esp32_components.LfsPartRpc.Alloc.{Fresh}

-- A message, and what malloc() gives while it is handled.
pub record Event : Type 0 where
  pub call : LfsCallset
  pub room : Option ℕ

-- The replies with their status, in order.
abbrev pub Replies : Type 0
Replies = List (LfsCallset × StatusEnum)

-- A message that no handler is for leaves everything as it is.
unfoldable pub serve :
    (F : Littlefs) → ℕ → (ℕ → Partition) → Registry → Event → Call F → Outcome (Call F)
serve F fuel partition registry e x =
    let x' : Call F = record x { call = e.call } in
    elim (resolver F fuel partition registry e.call) [
      | none ↦ returns x'
      | some handler ↦ handler e.room x'
    ]

unfoldable pub ask :
    (F : Littlefs)
    → ℕ
    → (ℕ → Partition)
    → (List ℕ → Option ℕ)
    → Event
    → Request F
    → Outcome (Request F)
ask F fuel partition find e y =
    let y' : Request F = record y { call = e.call } in
    elim (find_handler e.call.which_msg (requests F fuel partition find)) [
      | none ↦ returns y'
      | some request ↦ request e.room y'
    ]

unfoldable pub serve_all :
    (F : Littlefs)
    → ℕ
    → (ℕ → Partition)
    → Registry
    → List Event
    → Call F
    → Outcome (Replies × Call F)
unfolding serve
serve_all F fuel partition registry [] x = returns ([], x)
serve_all F fuel partition registry (e ∷ es) x = do
  y ← serve F fuel partition registry e x
  (rs, z) ← serve_all F fuel partition registry es y
  returns ((y.reply, y.status) ∷ rs, z)

unfoldable pub ask_all :
    (F : Littlefs)
    → ℕ
    → (ℕ → Partition)
    → (List ℕ → Option ℕ)
    → List Event
    → Request F
    → Outcome (Replies × Request F)
unfolding ask
ask_all F fuel partition find [] x = returns ([], x)
ask_all F fuel partition find (e ∷ es) x = do
  y ← ask F fuel partition find e x
  (rs, z) ← ask_all F fuel partition find es y
  returns ((y.reply, y.status) ∷ rs, z)

-- malloc() gives blocks that are not in the cache at the time.
abbrev pub AllFresh : (F : Littlefs) → ℕ → (ℕ → Partition) → Registry → List Event → Call F → Type 0
AllFresh F fuel partition registry [] x = Unit {0}
AllFresh F fuel partition registry (e ∷ es) x =
    Fresh fuel x.world e.room × elim (serve F fuel partition registry e x) [
      | returns y ↦ AllFresh F fuel partition registry es y
      | fails ↦ Unit {0}
      | faults ↦ Unit {0}
      | unfinished ↦ Unit {0}
    ]

-- The table after the initialisation.
abbrev pub all_free : Table
all_free = replicate max_open_descriptors none
