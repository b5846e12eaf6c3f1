-- ===== src/Cue/State.antt =====
-- cue.go: the invariant of the loop of `ParseCue`, and the flush of a track.
use miniscram.Common.{
  ℕ, ◌≤◌, ◌≡◌, refl, arith, Bool, true, false, not, ◌||◌, Option, none, some, List, [], ◌∷◌, ◌++◌,
  All, All-append, ℤ, pos, ltb_ℤ, pos_part, ◌⊎◌, Ensures, Ensures->>=, Ensures-if,
}
use mathlib.Core.Path.{subst}
use miniscram.Disc.{Track}
use miniscram.Text.{is_empty}
use miniscram.Cue.Parse.{CueState, flush_track, end_track, has_path_part, is_valid_mode}

-- A name that is not empty and leads to no other directory.
abbrev pub IsPlain : List ℕ → Type 0
IsPlain name = (is_empty name ≡ false) × (has_path_part name ≡ false)

-- What the parser promises of a track.
abbrev pub IsParsed : Track → Type 0
IsParsed t =
    IsPlain t.filename × (is_valid_mode t.mode ≡ true) × (t.first_lba ≡ pos 0) × (t.size ≡ pos 0)

-- Sessions do not decrease from `low` on and stay within `high`.
abbrev pub Rising : ℕ → List Track → ℕ → Type 0
Rising low [] high = low ≤ high
Rising low (t ∷ ts) high = (low ≤ t.session) × Rising t.session ts high

abbrev pub IsCurrentTrack : ℕ → Option Track → Type 0
IsCurrentTrack session none = Unit
IsCurrentTrack session (some t) = IsParsed t × (t.session ≡ session)

abbrev pub Inv : CueState → Type 0
Inv st =
    All IsParsed st.tracks
    × Rising 1 st.tracks st.current_session
    × (st.current_session ≤ 255)
    × IsCurrentTrack st.current_session st.cur
    × ((is_empty st.current_file ≡ true) ⊎ IsPlain st.current_file)

pub Rising-le :
    (low : ℕ) (ts : List Track) (high high' : ℕ)
    → Rising low ts high
    → high ≤ high'
    → Rising low ts high'
Rising-le low [] high high' h le = omega arith
Rising-le low (t ∷ ts) high high' (h, hs) le = (h, Rising-le t.session ts high high' hs le)

Rising-append :
    (low : ℕ) (ts : List Track) (high : ℕ) (t : Track)
    → Rising low ts high
    → t.session ≡ high
    → Rising low (ts ++ (t ∷ [])) high
Rising-append low [] high t h e = (omega arith, omega arith)
Rising-append low (u ∷ ts) high t (h, hs) e = (h, Rising-append u.session ts high t hs e)

pub not-true : (b : Bool) → not b ≡ true → b ≡ false
not-true b e = ground arith

pub session_bounds :
    (n : ℤ) (current : ℕ)
    → ltb_ℤ n (pos 1) || ltb_ℤ (pos 255) n ≡ false
    → ltb_ℤ n (pos current) ≡ false
    → (current ≤ pos_part n) × (pos_part n ≤ 255)
session_bounds n current fits least = (ground arith, ground arith)

-- A flush leaves the file and the session.
abbrev pub Flushed : CueState → CueState → Type 0
Flushed st flushed =
    Inv flushed
    × (flushed.current_session ≡ st.current_session)
    × (flushed.current_file ≡ st.current_file)

pub flush_track-Flushed : (st : CueState) → Inv st → Ensures (Flushed st) (flush_track st)
unfolding flush_track
flush_track-Flushed st inv = go st.cur refl
  where
    go : (cur : Option Track) → st.cur ≡ cur → Ensures (Flushed st) (flush_track st)
    go none e = rw (e, flush_track) (inv, refl, refl)
    go (some t) e =
        let (parsed, rising, small, current, file) = inv in
        let (good, here) = subst (IsCurrentTrack st.current_session) e current in
        rw (e, flush_track)
          (Ensures-if (Flushed st) st.has_index01 _ _
            (λ has_index. (
              (
                All-append IsParsed st.tracks (t ∷ []) parsed (good, tt),
                Rising-append 1 st.tracks st.current_session t rising here,
                small,
                current,
                file,
              ),
              refl,
              refl,
            ))
            (λ lacks. tt))

pub end_track-Flushed :
    (st : CueState)
    → Inv st
    → Ensures (λ (ended : CueState). Flushed st ended × (ended.cur ≡ none)) (end_track st)
unfolding end_track
end_track-Flushed st inv =
    Ensures->>= (Flushed st) (λ (ended : CueState). Flushed st ended × (ended.cur ≡ none))
      (flush_track st) _ (flush_track-Flushed st inv)
      (λ flushed ((parsed, rising, small, current, file), session, name).
        (((parsed, rising, small, tt, file), session, name), refl))
