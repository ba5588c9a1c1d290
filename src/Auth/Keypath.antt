-- ===== src/Auth/Keypath.antt =====
-- internal/auth/keypath/keypath.go: resource paths. A string is its bytes; a byte of a multi-byte
-- character is no more a segment character than the character is.
pub mod Canonical
pub mod Prefix
pub mod Nested
use zuul.Shared.{
  ℕ, ◌+◌, Bytes, codes, Bool, true, false, Option, none, some, List, [], ◌∷◌, ◌++◌, ite, ◌≟◌,
  if◌then◌else◌, ltb, leb, ◌==◌, ◌&&◌, ◌||◌, length,
}

abbrev pub max_segment_len : ℕ
max_segment_len = 255

abbrev pub max_path_len : ℕ
max_path_len = 1024

abbrev pub slash : ℕ
slash = b'/'

-- strings.Split(s, "/")
abbrev pub add_to_head : ℕ → List Bytes → List Bytes
add_to_head c [] = (c ∷ []) ∷ []
add_to_head c (s ∷ ss) = (c ∷ s) ∷ ss

unfoldable pub split : Bytes → List Bytes
split [] = [] ∷ []
split (c ∷ cs) = let rest = split cs in if c == slash then [] ∷ rest else add_to_head c rest

-- strings.HasPrefix(s, prefix)
unfoldable pub starts_with : Bytes → Bytes → Bool
starts_with s [] = true
starts_with [] (p ∷ ps) = false
starts_with (c ∷ cs) (p ∷ ps) = let rest = starts_with cs ps in if c == p then rest else false

-- strings.HasSuffix(s, "/")
unfoldable pub ends_with_slash : Bytes → Bool
ends_with_slash [] = false
ends_with_slash (c ∷ []) = c == slash
ends_with_slash (c ∷ d ∷ cs) = ends_with_slash (d ∷ cs)

unfoldable pub is_segment_rune : ℕ → Bool
is_segment_rune r =
    (leb b'a' r && leb r b'z')
    || ((leb b'A' r && leb r b'Z')
        || ((leb b'0' r && leb r b'9') || (r == b'.' || (r == b'_' || (r == b'@' || r == b'-')))))

pub data SegmentError : Type 0 where
  empty_segment dot_segment segment_too_long invalid_character : SegmentError

-- The loop over the characters of a segment.
unfoldable pub check_runes : Bytes → Option SegmentError
unfolding is_segment_rune
check_runes [] = none
check_runes (r ∷ rs) =
    let rest = check_runes rs in if is_segment_rune r then rest else some invalid_character

unfoldable pub validate_segment : Bytes → Option SegmentError
unfolding check_runes
validate_segment s = ite (s ≟ []) (some empty_segment) (
    ite (s ≟ codes ".") (some dot_segment) (
      ite (s ≟ codes "..") (some dot_segment)
        (if ltb max_segment_len (length s) then some segment_too_long else check_runes s)))

pub data PathError : Type 0 where
  empty_key key_too_long no_leading_slash trailing_slash too_few_segments : PathError
  bad_segment : SegmentError → PathError

abbrev first_error : Option SegmentError → Option PathError → Option PathError
first_error none rest = rest
first_error (some e) rest = some (bad_segment e)

unfoldable pub check_segments : List Bytes → Option PathError
unfolding validate_segment
check_segments [] = none
check_segments (s ∷ ss) = first_error (validate_segment s) (check_segments ss)

-- The checks behind the first byte, the key being `c ∷ rest`.
check_tail : ℕ → Bytes → Option PathError
unfolding split ends_with_slash check_segments
check_tail c rest =
    if ltb max_path_len (length (c ∷ rest))
    then some key_too_long
    else if c == slash
    then if ends_with_slash (c ∷ rest)
      then some trailing_slash
      else if ltb (length (split rest)) 2
      then some too_few_segments
      else check_segments (split rest)
    else some no_leading_slash

-- none for a canonical path
unfoldable pub validate : Bytes → Option PathError
unfolding check_tail
validate [] = some empty_key
validate (c ∷ rest) = check_tail c rest

-- strings.TrimSuffix(s, "/")
unfoldable pub trim_slash : Bytes → Bytes
trim_slash [] = []
trim_slash (c ∷ []) = if c == slash then [] else c ∷ []
trim_slash (c ∷ d ∷ cs) = c ∷ trim_slash (d ∷ cs)

unfoldable pub has_prefix : Bytes → Bytes → Bool
unfolding trim_slash starts_with
has_prefix [] key = true
has_prefix (c ∷ cs) key =
    let prefix = trim_slash (c ∷ cs) in
    ite (key ≟ prefix) true (starts_with key (prefix ++ (slash ∷ [])))

-- rest[:i] for the first "/" of `rest`, or all of it.
unfoldable pub before_slash : Bytes → Bytes
before_slash [] = []
before_slash (c ∷ cs) = let rest = before_slash cs in if c == slash then [] else c ∷ rest

owner_checked : Bytes → Option PathError → Option Bytes
unfolding before_slash
owner_checked key (some e) = none
owner_checked [] none = none
owner_checked (c ∷ rest) none = some (before_slash rest)

-- none where the source returns an error
unfoldable pub owner : Bytes → Option Bytes
unfolding owner_checked validate
owner key = owner_checked key (validate key)
