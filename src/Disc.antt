-- ===== src/Disc.antt =====
-- The tracks of a disc: `Track` of cue.go and `FileHashes` of pack.go.
-- A Go string is the list of its bytes.
use miniscram.Common.{ℕ, Bool, false, not, ◌||◌, List, [], ◌∷◌, ltb, bytes_equal, codes, ℤ}

-- The digests as lowercase hex strings.
pub record FileHashes : Type 0 where
  pub md5 : List ℕ
  pub sha1 : List ℕ
  pub sha256 : List ℕ

pub record Track : Type 0 where
  pub number : ℤ
  pub session : ℕ
  pub mode : List ℕ
  pub first_lba : ℤ
  pub filename : List ℕ
  pub size : ℤ
  pub hashes : FileHashes
  pub file_offset : ℤ

abbrev pub audio : List ℕ
audio = codes "AUDIO"

unfoldable pub is_audio : List ℕ → Bool
unfolding bytes_equal
is_audio mode = bytes_equal mode audio

-- `Track.IsData`.
unfoldable pub is_data : Track → Bool
unfolding is_audio
is_data t = not (is_audio t.mode)

unfoldable pub any_data_track : List Track → Bool
unfolding is_data
any_data_track [] = false
any_data_track (t ∷ ts) = is_data t || any_data_track ts

-- pack.go: `hasMultipleSessions`.
unfoldable pub has_multiple_sessions : List Track → Bool
has_multiple_sessions [] = false
has_multiple_sessions (t ∷ ts) = ltb 1 t.session || has_multiple_sessions ts

-- manifest.go: `ScramInfo` and `Manifest`.
pub record ScramInfo : Type 0 where
  pub size : ℤ
  pub hashes : FileHashes

pub record Manifest : Type 0 where
  pub tool_version : List ℕ
  pub created_unix : ℤ
  pub write_offset_bytes : ℤ
  pub leadin_lba : ℤ
  pub scram : ScramInfo
  pub tracks : List Track

-- Go's zero value of the digests.
abbrev pub no_hashes : FileHashes
no_hashes = record { md5 = []; sha1 = []; sha256 = [] }
