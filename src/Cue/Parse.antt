-- ===== src/Cue/Parse.antt =====
-- cue.go: `ParseCue` on ASCII text. The lines are read by `bufio.Scanner`: `scan_lines` gives them
-- and whether the scanner stops with an error. Reads of the file do not fail.
use miniscram.Common.{
  ℕ, zero, suc, ◌+◌, ◌-◌, ◌*◌, Bool, true, false, not, ◌&&◌, ◌||◌, Option, none, some, List, [],
  ◌∷◌, ◌++◌, length, take, drop, leb, if◌then◌else◌, bytes_equal, codes, ℤ, pos, ◌+ℤ◌, ◌*ℤ◌, ltb_ℤ,
  eqb_ℤ, pos_part, to_i32, Result, ok, err, or_err, guard, ◌>>=◌,
}
use miniscram.Disc.{Track, audio, no_hashes}
use miniscram.Text.{
  has_prefix, trim_prefix, trim_suffix, contains, has_byte, trim_space, fields, split, to_upper,
  equal_fold, atoi, is_empty,
}

pub data CueError : Type 0 where
  not_a_cuesheet : CueError
  no_index_01 : ℤ → CueError
  bad_session : List ℕ → CueError
  session_decreases : ℤ → ℕ → CueError
  malformed_line : List ℕ → CueError
  unsupported_type : List ℕ → CueError
  empty_file_name : CueError
  path_in_file_name : List ℕ → CueError
  track_before_file : CueError
  second_track_in_file : List ℕ → CueError
  bad_track_number : List ℕ → CueError
  unsupported_mode : List ℕ → CueError
  index_before_track : CueError
  bad_msf : List ℕ → CueError
  scan_failed : CueError
  no_tracks : CueError

abbrev pub cue_sniff_bytes : ℕ
cue_sniff_bytes = 4 * 1024

abbrev pub cue_keywords : List (List ℕ)
cue_keywords =
    codes "FILE"
    ∷ codes "TRACK"
    ∷ codes "INDEX"
    ∷ codes "REM"
    ∷ codes "PERFORMER"
    ∷ codes "TITLE"
    ∷ codes "CATALOG"
    ∷ codes "PREGAP"
    ∷ []

-- `containsAnyKeyword`.
unfoldable pub contains_any_keyword : List ℕ → List (List ℕ) → Bool
unfolding contains
contains_any_keyword buf [] = false
contains_any_keyword buf (kw ∷ keywords) = contains buf kw || contains_any_keyword buf keywords

-- `validModes`.
unfoldable pub is_valid_mode : List ℕ → Bool
unfolding bytes_equal
is_valid_mode mode =
    bytes_equal mode (codes "MODE1/2352")
    || bytes_equal mode (codes "MODE2/2352")
    || bytes_equal mode audio

unfoldable pub msf_value : Option ℤ → Option ℤ → Option ℤ → Option ℤ
msf_value (some m) (some sec) (some f) = some (to_i32 (m *ℤ (60 * 75) +ℤ sec *ℤ 75 +ℤ f))
msf_value (some m) (some sec) none = none
msf_value (some m) none f = none
msf_value none sec f = none

-- `parseMSF`: minutes, seconds and frames of `mm:ss:ff`.
unfoldable pub parse_msf : List ℕ → Option ℤ
unfolding split atoi msf_value
parse_msf s = elim (split 58 s) [
  | m ∷ sec ∷ f ∷ [] ↦ msf_value (atoi m) (atoi sec) (atoi f)
  | _ ↦ none
]

-- The variables of the loop.
pub record CueState : Type 0 where
  pub tracks : List Track
  pub cur : Option Track
  pub has_index01 : Bool
  pub current_file : List ℕ
  pub file_track_count : ℕ
  pub current_session : ℕ

abbrev pub start_state : CueState
start_state = record {
  tracks = [];
  cur = none;
  has_index01 = false;
  current_file = [];
  file_track_count = 0;
  current_session = 1;
}

unfoldable pub field_at : ℕ → List (List ℕ) → List ℕ
field_at n [] = []
field_at zero (f ∷ fs) = f
field_at (suc n) (f ∷ fs) = field_at n fs

-- `flushTrack`.
unfoldable pub flush_track : CueState → Result CueError CueState
flush_track st = elim st.cur [
  | none ↦ ok st
  | some t ↦
      if st.has_index01
      then ok (record st { tracks = st.tracks ++ (t ∷ []) })
      else err (no_index_01 t.number)
]

-- The flush before a session or a file begins.
unfoldable pub end_track : CueState → Result CueError CueState
unfolding flush_track
end_track st = do flushed ← flush_track st; ok (record flushed { cur = none; has_index01 = false })

-- `REM SESSION n`.
unfoldable pub begin_session : List ℕ → ℤ → CueState → Result CueError CueState
unfolding end_track
begin_session field n st =
    if ltb_ℤ n (pos 1) || ltb_ℤ (pos 255) n
    then err (bad_session field)
    else if ltb_ℤ n (pos st.current_session)
    then err (session_decreases n st.current_session)
    else if eqb_ℤ n (pos st.current_session)
    then ok st
    else (do ended ← end_track st; ok (record ended { current_session = pos_part n }))

-- A REM line, `fs` being the words behind REM.
unfoldable pub rem_line : List (List ℕ) → CueState → Result CueError CueState
unfolding begin_session atoi field_at equal_fold
rem_line fs st =
    if leb 2 (length fs) && equal_fold (field_at 0 fs) (codes "SESSION")
    then (do
      n ← or_err (atoi (field_at 1 fs)) (bad_session (field_at 1 fs))
      begin_session (field_at 1 fs) n st)
    else ok st

-- The name in a FILE line, without the quotes.
unfoldable pub raw_name : List ℕ → List ℕ → List ℕ
unfolding trim_space trim_prefix trim_suffix
raw_name line type_tok =
    let name = trim_space (trim_suffix (trim_prefix line (codes "FILE")) type_tok) in
    trim_suffix (trim_prefix (trim_space name) (34 ∷ [])) (34 ∷ [])

unfoldable pub has_path_part : List ℕ → Bool
unfolding has_byte bytes_equal
has_path_part name =
    has_byte 47 name
    || has_byte 92 name
    || bytes_equal name (46 ∷ [])
    || bytes_equal name (46 ∷ 46 ∷ [])

unfoldable pub begin_file : List ℕ → CueState → Result CueError CueState
unfolding end_track has_path_part is_empty
begin_file name st = do
  _ ← guard (not (is_empty name)) empty_file_name
  _ ← guard (not (has_path_part name)) (path_in_file_name name)
  ended ← end_track st
  ok (record ended { current_file = name; file_track_count = 0 })

unfoldable pub file_line : List ℕ → List (List ℕ) → CueState → Result CueError CueState
unfolding begin_file raw_name field_at
file_line line fs st =
    let type_tok = field_at (length fs - 1) fs in
    do
      _ ← guard (leb 3 (length fs)) (malformed_line line)
      _ ← guard (bytes_equal type_tok (codes "BINARY")) (unsupported_type type_tok)
      begin_file (raw_name line type_tok) st

-- A TRACK line, once the track before it is flushed.
unfoldable pub begin_track : List ℕ → List (List ℕ) → CueState → Result CueError CueState
unfolding atoi field_at is_valid_mode
begin_track line fs st = do
  _ ← guard (leb (st.file_track_count + 1) 1) (second_track_in_file st.current_file)
  _ ← guard (leb 3 (length fs)) (malformed_line line)
  n ← or_err (atoi (field_at 1 fs)) (bad_track_number (field_at 1 fs))
  _ ← guard (is_valid_mode (field_at 2 fs)) (unsupported_mode (field_at 2 fs))
  ok (record st {
    file_track_count = st.file_track_count + 1;
    cur = some (record {
      number = n;
      session = st.current_session;
      mode = field_at 2 fs;
      first_lba = pos 0;
      filename = st.current_file;
      size = pos 0;
      hashes = no_hashes;
      file_offset = pos 0;
    });
    has_index01 = false;
  })

unfoldable pub track_line : List ℕ → List (List ℕ) → CueState → Result CueError CueState
unfolding begin_track flush_track is_empty
track_line line fs st = do
  _ ← guard (not (is_empty st.current_file)) track_before_file
  flushed ← flush_track st
  begin_track line fs flushed

unfoldable pub index_line : List ℕ → List (List ℕ) → CueState → Result CueError CueState
unfolding parse_msf field_at bytes_equal
index_line line fs st = elim st.cur [
  | none ↦ err index_before_track
  | some t ↦
      if not (leb 3 (length fs))
      then err (malformed_line line)
      else if not (bytes_equal (field_at 1 fs) (codes "01"))
      then ok st
      else (do
        _ ← or_err (parse_msf (field_at 2 fs)) (bad_msf line)
        ok (record st { has_index01 = true }))
]

unfoldable pub is_rem : List ℕ → Bool
unfolding has_prefix bytes_equal
is_rem upper =
    bytes_equal upper (codes "REM")
    || has_prefix upper (codes "REM ")
    || has_prefix upper (82 ∷ 69 ∷ 77 ∷ 9 ∷ [])

-- The switch on the first word of a trimmed line.
unfoldable pub word_line : List ℕ → List (List ℕ) → CueState → Result CueError CueState
unfolding file_line track_line index_line field_at bytes_equal
word_line line fs st =
    if bytes_equal (field_at 0 fs) (codes "FILE")
    then file_line line fs st
    else if bytes_equal (field_at 0 fs) (codes "TRACK")
    then track_line line fs st
    else if bytes_equal (field_at 0 fs) (codes "INDEX")
    then index_line line fs st
    else ok st

-- One round of the loop.
unfoldable pub parse_line : List ℕ → CueState → Result CueError CueState
unfolding rem_line word_line is_rem trim_space fields to_upper is_empty
parse_line text st =
    let line = trim_space text in
    if is_empty line
    then ok st
    else if is_rem (to_upper line)
    then rem_line (fields (trim_space (drop 3 line))) st
    else word_line line (fields line) st

unfoldable pub parse_lines : List (List ℕ) → CueState → Result CueError CueState
unfolding parse_line
parse_lines [] st = ok st
parse_lines (text ∷ texts) st = do next ← parse_line text st; parse_lines texts next

-- The end of `ParseCue`: `failed` is the scanner's error.
unfoldable pub parsed_tracks : Bool → CueState → Result CueError (List Track)
unfolding flush_track
parsed_tracks failed st = do
  _ ← guard (not failed) scan_failed
  flushed ← flush_track st
  elim flushed.tracks [ [] ↦ err no_tracks | t ∷ ts ↦ ok (t ∷ ts) ]

-- `ParseCue`.
module _ (scan_lines : List ℕ → List (List ℕ) × Bool) where
  unfoldable pub parse_cue : List ℕ → Result CueError (List Track)
  unfolding contains_any_keyword parse_lines parsed_tracks
  parse_cue text = do
    _ ← guard (contains_any_keyword (take cue_sniff_bytes text) cue_keywords) not_a_cuesheet
    st ← parse_lines (scan_lines text).0 start_state
    parsed_tracks (scan_lines text).1 st
