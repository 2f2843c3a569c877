-- ===== src/Service/Layout.antt =====
-- The header of a request or response as a codec.
use rmw_gurumdds.Base.{
  ℕ, ◌^◌, ◌<◌, ◌≡◌, Bool, true, false, List, [], ◌++◌, >>=-ok, arith, take, drop, length, All-take,
  All-drop, length-take, length-drop, take-drop, take_all,
}
use rmw_gurumdds.Cdr.Memory.{
  Endian, word_bytes, word_value, IsBytes, word_value_fits, word_bytes-word_value,
}
use rmw_gurumdds.Cdr.Words.{w32, w64, differs}
use rmw_gurumdds.Cdr.Codec.{Codec}
use rmw_gurumdds.Cdr.Codec.Bind.{bind-Codec}
use rmw_gurumdds.Cdr.Codec.Align.{reader-Codec}
use rmw_gurumdds.Cdr.Roundtrip.Words.{word_end, word-Codec}
use rmw_gurumdds.Cdr.Roundtrip.Strings.{string_end, string-Codec}
use rmw_gurumdds.Service.Numbers.{sn_high, sn_low, sn_high_sum, sn_low_sum}
use rmw_gurumdds.Service.Serialize.{guid_word, write_tail, write_header}
use rmw_gurumdds.Service.Deserialize.{Header, read_tail, read_header}

-- Where what follows the sequence number ends, and where the header ends.
abbrev pub tail_end : Bool → ℕ → ℕ
tail_end true o = string_end [] o
tail_end false o = word_end w32 o

abbrev pub header_end : Bool → ℕ → ℕ
header_end is_request o =
    tail_end is_request (word_end w32 (word_end w32 (word_end w64 (word_end w64 o))))

-- The guid as the system `to` has it in memory after reading what the system `from` wrote.
abbrev pub relayed : Endian → Endian → List ℕ → List ℕ
relayed from to guid =
    word_bytes to 8 (guid_word from guid) ++ word_bytes to 8 (guid_word from (drop 8 guid))

-- The 16 bytes of a guid.
abbrev pub IsGuid : List ℕ → Type 0
IsGuid guid = (length guid ≡ 16) × IsBytes guid

-- What a reader makes of the header.
abbrev pub header_of : Endian → Endian → ℕ → List ℕ → Header
header_of from to sequence_number guid = record {
  client_guid = relayed from to guid;
  sn_high = sn_high sequence_number;
  sn_low = sn_low sequence_number;
}

first_word_fits : (sys : Endian) (guid : List ℕ) → IsGuid guid → guid_word sys guid < 256 ^ 8
first_word_fits sys guid h =
    let eight : length (take 8 guid) ≡ 8 = length-take 8 guid (omega (arith, h.0)) in
    rw eight at (word_value_fits sys (take 8 guid) (All-take _ 8 guid h.1))

second_word_fits :
    (sys : Endian) (guid : List ℕ) → IsGuid guid → guid_word sys (drop 8 guid) < 256 ^ 8
second_word_fits sys guid h =
    let rest = drop 8 guid in
    let eight : length (take 8 rest) ≡ 8 =
      length-take 8 rest (omega (arith, h.0, length-drop 8 guid)) in
    rw eight at (word_value_fits sys (take 8 rest) (All-take _ 8 rest (All-drop _ 8 guid h.1)))

half_back :
    (sys : Endian) (bs : List ℕ)
    → length bs ≡ 8
    → IsBytes bs
    → word_bytes sys 8 (word_value sys bs) ≡ bs
half_back sys bs e h = rw e at (word_bytes-word_value sys bs h)

-- Between two systems of one byte order a guid is not changed.
pub relayed_same : (sys : Endian) (guid : List ℕ) → IsGuid guid → relayed sys sys guid ≡ guid
relayed_same sys guid h =
    let rest = drop 8 guid in
    let eight : length rest ≡ 8 = omega (arith, h.0, length-drop 8 guid) in
    let all_ : take 8 rest ≡ rest = rw eight at (take_all rest) in
    let first =
      half_back sys (take 8 guid) (length-take 8 guid (omega (arith, h.0)))
        (All-take _ 8 guid h.1) in
    let second = half_back sys rest eight (All-drop _ 8 guid h.1) in
    rw (first, all_, second) (take-drop 8 guid)

module _ (from to : Endian) where
  tail-Codec :
      (is_request : Bool)
      → Codec
          (λ s b. write_tail from s is_request b)
          (tail_end is_request)
          (read_tail to (differs from to) is_request)
          tt
  unfolding write_tail read_tail
  tail-Codec true = reader-Codec (string-Codec from to [] (omega arith)) λ d d' e. >>=-ok _ e
  tail-Codec false = reader-Codec (word-Codec from to w32 0 (omega arith)) λ d d' e. >>=-ok _ e

  pub header-Codec :
      (is_request : Bool) (sequence_number : ℕ) (guid : List ℕ)
      → sequence_number < 2 ^ 64
      → IsGuid guid
      → Codec
          (λ s b. write_header from s sequence_number guid is_request b)
          (header_end is_request)
          (read_header to (differs from to) is_request)
          (header_of from to sequence_number guid)
  unfolding write_header read_header
  header-Codec is_request n guid small h =
      let high : sn_high n < 256 ^ 4 = omega (arith, sn_high_sum n small) in
      let low : sn_low n < 256 ^ 4 = omega (arith, sn_low_sum n) in
      bind-Codec _ (word-Codec from to w64 (guid_word from guid) (first_word_fits from guid h)) (
        bind-Codec _
          (word-Codec from to w64 (guid_word from (drop 8 guid)) (second_word_fits from guid h))
          (bind-Codec _ (word-Codec from to w32 (sn_high n) high) (
            bind-Codec _ (word-Codec from to w32 (sn_low n) low)
              (reader-Codec (tail-Codec is_request) λ d d' e. >>=-ok _ e))))
