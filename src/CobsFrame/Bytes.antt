-- ===== src/CobsFrame/Bytes.antt =====
-- The deframer's reads from its fifo, one byte at a time.
use esp32_components.Base.{
  ℕ, suc, ◌*◌, ◌<◌, ◌≡◌, refl, sym, ap, ap₂, ◌∙◌, inl, List, [], ◌∷◌, ◌++◌, returns, arith, length,
  take, drop, set, store_inside, load_middle,
}
use esp32_components.SwFifo.{SwFifo, read, count}
use esp32_components.SwFifo.Inv.{contents}
use esp32_components.SwFifo.Read.{read_lem, granted, read_shape}
use esp32_components.SwFifo.Refine.{IsByteFifo, count-length}
use esp32_components.CobsFrame.{read_byte}

-- A fifo of bytes with the given contents.
pub record Holds (cap : ℕ) (q : List ℕ) (f : SwFifo) : Type 0 where
  pub fits : IsByteFifo cap f
  pub has : contents f ≡ q

pub count-Holds : {cap : ℕ} {q : List ℕ} {f : SwFifo} → Holds cap q f → count f ≡ length q
count-Holds h = sym (count-length h.fits) ∙ ap length h.has

-- One byte is taken from the front.
read-Holds :
    {cap b : ℕ} {q : List ℕ} {f : SwFifo}
    → Holds cap (b ∷ q) f
    → (g : SwFifo) × (read f (0 ∷ []) 1 ≡ (1, b ∷ [], g)) × Holds cap q g
read-Holds {cap} {b} {q} {f} h =
    let c : count f ≡ suc (length q) = count-Holds h in
    let one : granted f 1 ≡ 1 = ground arith in
    let (k, filled, taken, left, valid) =
      read_lem (0 ∷ []) 1 h.fits.valid (ground (arith, h.fits.bytes)) (inl h.fits.bytes) in
    let one_byte = ap₂ ◌*◌ (k ∙ one) h.fits.bytes in
    let byte : (read f (0 ∷ []) 1).1 ≡ b ∷ [] =
      filled
      ∙ ap (λ j. take j (contents f) ++ drop j (0 ∷ [])) one_byte
      ∙ ap (λ l. take 1 l ++ drop 1 (0 ∷ [])) h.has in
    let shape = read_shape f (0 ∷ []) 1 in
    (
      (read f (0 ∷ []) 1).2,
      ap₂ (λ n d. (n, d, (read f (0 ∷ []) 1).2)) (k ∙ one) byte,
      record {
        fits = record {
          valid = valid;
          bytes = ground (arith, shape, h.fits.bytes);
          deep = ground (arith, shape, h.fits.deep);
        };
        has = taken ∙ ap (λ j. drop j (contents f)) one_byte ∙ ap (λ l. drop 1 l) h.has;
      },
    )

pub read_byte-Holds :
    {cap b : ℕ} {q : List ℕ} {f : SwFifo} (buf : List ℕ) (i : ℕ)
    → Holds cap (b ∷ q) f
    → i < length buf
    → (g : SwFifo) × (read_byte f buf i ≡ returns (set buf i b, g)) × Holds cap q g
unfolding read_byte
read_byte-Holds {b = b} buf i h l =
    let (g, e, k) = read-Holds h in (g, rw (e, load_middle [] b [] refl, store_inside buf i b l), k)
