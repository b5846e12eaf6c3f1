-- ===== src/Builder/Reproduce.antt =====
-- The scram that `Unpack` rebuilds from what `Pack` records.
use miniscram.Common.{
  ℕ, zero, suc, ◌-◌, ◌*◌, ◌^◌, ◌≤◌, ◌<◌, ◌≡◌, ◌≢◌, refl, sym, ap, ◌∙◌, arith, none, some, List, ◌∷◌,
  ◌++◌, length, replicate, take, drop, take-append-drop, take_all, length-drop, Result, ok,
  ok-injective, pos, pos_part, neg_part,
}
use miniscram.Layout.{total_lbas}
use miniscram.Delta.{DeltaError, apply_delta, append_all, new_delta_encoder, close}
use miniscram.Builder.Build.{BuildParams, BuildResult, build_epsilon_hat}
use miniscram.Builder.Beside.{view}
use miniscram.Builder.RoundTrip.{build_epsilon_hat_round_trip}
use miniscram.Builder.Complete.{bin_needed, build_epsilon_hat_complete}

-- What `Pack` accepts: a scram of at most 1 GiB that is longer than its write offset, and a bin
-- with a sector for each of the `n` addresses that lie in a track.
pub record IsPackable (p : BuildParams) (bin file : List ℕ) (n : ℕ) : Type 0 where
  pub scram : p.scram_size ≡ pos (length file)
  pub offset : pos_part p.write_offset < length file
  pub small : length file ≤ 2 ^ 30
  pub early : neg_part p.write_offset ≤ 2 ^ 30
  pub leadin_low : neg_part p.leadin_lba ≤ 2 ^ 30
  pub leadin_high : pos_part p.leadin_lba ≤ 2 ^ 30
  pub counted : total_lbas p.scram_size p.write_offset ≡ some (pos n)
  pub covered : 2352 * bin_needed p n p.leadin_lba ≤ length bin

-- What is rebuilt from the prediction `image` and the records of the run with the file.
abbrev pub rebuilt : List ℕ → BuildResult → Result DeltaError (List ℕ)
rebuilt image packed = apply_delta image (close (append_all new_delta_encoder packed.records)).0

take-replicate : (w : ℕ) (xs : List ℕ) → take w (replicate w 0 ++ xs) ≡ replicate w 0
take-replicate zero xs = refl
take-replicate (suc w) xs = ap (◌∷◌ 0) (take-replicate w xs)

view_all : (w : ℕ) (file : List ℕ) → view w file (length file) ≡ replicate w 0 ++ drop w file
view_all w file =
    ap (λ (t : List ℕ). replicate w 0 ++ t)
      (take_all (length file - w) (drop w file) (omega (arith, length-drop w file)))

-- On a packable disc both runs succeed with the same image, which has the size of the scram, and
-- the records rebuild the scram with zeros for the bytes under a positive write offset.
pub rebuilt_lem :
    (p : BuildParams) (bin file : List ℕ) (n : ℕ)
    → IsPackable p bin file n
    → (r packed : BuildResult) × (build_epsilon_hat p bin none ≡ ok r)
      × (build_epsilon_hat p bin (some file) ≡ ok packed)
      × (packed.image ≡ r.image)
      × (length r.image ≡ length file)
      × (rebuilt r.image packed
          ≡ ok (replicate (pos_part p.write_offset) 0 ++ drop (pos_part p.write_offset) file))
rebuilt_lem p bin file n h =
    let (r, alone, full) =
      build_epsilon_hat_complete p bin (length file) n h.scram h.offset h.small h.early h.leadin_low
        h.leadin_high h.counted h.covered in
    let (packed, beside, image, _, applied) =
      build_epsilon_hat_round_trip p bin file (length file) r h.scram (omega (arith, h.offset))
        h.small (omega arith) alone in
    (
      r,
      packed,
      alone,
      beside,
      image,
      full,
      applied
          ∙ ap ok (
              ap (view (pos_part p.write_offset) file) full
              ∙ view_all (pos_part p.write_offset) file),
    )

-- On a packable disc whose scram begins with zeros as far as a positive write offset goes (so
-- always if the offset is not positive), the scram is rebuilt byte for byte.
pub rebuilt_exactly :
    (p : BuildParams) (bin file : List ℕ) (n : ℕ)
    → IsPackable p bin file n
    → take (pos_part p.write_offset) file ≡ replicate (pos_part p.write_offset) 0
    → (r packed : BuildResult) × (build_epsilon_hat p bin none ≡ ok r)
      × (build_epsilon_hat p bin (some file) ≡ ok packed)
      × (rebuilt r.image packed ≡ ok file)
rebuilt_exactly p bin file n h zeros =
    let (r, packed, alone, beside, _, _, applied) = rebuilt_lem p bin file n h in
    (
      r,
      packed,
      alone,
      beside,
      applied
          ∙ ap ok (
              ap (λ t. t ++ drop (pos_part p.write_offset) file) (sym zeros)
              ∙ take-append-drop (pos_part p.write_offset) file),
    )

-- On a packable disc whose scram has another byte than zero under a positive write offset, the
-- runs succeed but what is rebuilt is not the scram: those bytes are never compared.
pub rebuilt_loses_head :
    (p : BuildParams) (bin file : List ℕ) (n : ℕ)
    → IsPackable p bin file n
    → take (pos_part p.write_offset) file ≢ replicate (pos_part p.write_offset) 0
    → (r packed : BuildResult) × (build_epsilon_hat p bin none ≡ ok r)
      × (build_epsilon_hat p bin (some file) ≡ ok packed)
      × (rebuilt r.image packed ≢ ok file)
rebuilt_loses_head p bin file n h other =
    let (r, packed, alone, beside, _, _, applied) = rebuilt_lem p bin file n h in
    (r, packed, alone, beside, λ same. other (head (ok-injective (sym applied ∙ same))))
  where
    head :
        replicate (pos_part p.write_offset) 0 ++ drop (pos_part p.write_offset) file ≡ file
        → take (pos_part p.write_offset) file ≡ replicate (pos_part p.write_offset) 0
    head e =
        sym (ap (take (pos_part p.write_offset)) e) ∙ take-replicate (pos_part p.write_offset) _
