-- ===== src/Rpc/Samples.antt =====
-- What the two take functions make of a sample (rmw_gurumdds_cpp/src/rmw_client.cpp,
-- rmw_gurumdds_cpp/src/rmw_service.cpp, rmw_gurumdds_cpp/include/rmw_gurumdds_cpp/gid.inl).
use rmw_gurumdds.Base.{
  ℕ, ◌+◌, ◌*◌, ◌≡◌, refl, Bool, true, false, ◌&&◌, ◌==◌, List, [], ◌∷◌, ◌++◌, take, drop, Option,
  none, some, ==_self, ==_iff, Bool-cases, inl, inr, ap₂,
}
use mathlib.Core.Bool.{false≢true}
use rmw_gurumdds.Base.Int.{ℤ, pos_part, neg_part, sub_ℕ}
use rmw_gurumdds.Message.Types.{Fields}
use rmw_gurumdds.Service.Numbers.{joined_sn, dds_sn_to_ros_sn}
use rmw_gurumdds.Service.Deserialize.{Header}
use rmw_gurumdds.Rpc.{DdsTime, Sample, RequestHeader}

-- `memcmp(a, b, n) == 0` on two blocks of n bytes.
unfoldable pub same_bytes : List ℕ → List ℕ → Bool
same_bytes [] [] = true
same_bytes (x ∷ xs) (y ∷ ys) = (x == y) && same_bytes xs ys
same_bytes _ _ = false

pub same_bytes_self : (bs : List ℕ) → same_bytes bs bs ≡ true
unfolding same_bytes
same_bytes_self [] = refl
same_bytes_self (b ∷ bs) = rw (==_self b) (same_bytes_self bs)

pub same_bytes_eq : (xs ys : List ℕ) → same_bytes xs ys ≡ true → xs ≡ ys
unfolding same_bytes
same_bytes_eq [] [] h = refl
same_bytes_eq [] (y ∷ ys) h = cc
same_bytes_eq (x ∷ xs) [] h = cc
same_bytes_eq (x ∷ xs) (y ∷ ys) h = elim (Bool-cases (x == y)) [
  | inl same ↦ ap₂ ◌∷◌ ((==_iff x y).0 same) (same_bytes_eq xs ys (rw same at h))
  | inr other ↦ absurd (false≢true (rw other at h))
]

unfoldable pub ros_guid_to_dds_guid : List ℕ → List ℕ
ros_guid_to_dds_guid guid_ros = take 12 guid_ros ++ take 4 (drop 12 guid_ros)

unfoldable pub dds_guid_to_ros_guid : List ℕ → List ℕ
dds_guid_to_ros_guid guid_dds = take 12 guid_dds ++ take 4 (drop 12 guid_dds)

-- `sec * static_cast<int64_t>(1000000000) + nanosec`
unfoldable pub to_nanoseconds : DdsTime → ℤ
to_nanoseconds t = sub_ℕ (pos_part t.sec * 1000000000 + t.nanosec) (neg_part t.sec * 1000000000)

-- What deserializing gives: the guid of the client, the sequence number and the message.
pub record Read : Type 0 where
  pub client_guid : List ℕ
  pub sequence_number : ℕ
  pub message : Fields

-- The basic mapping reads the service header.
unfoldable pub read_basic : Option (Header × Fields) → Option Read
read_basic none = none
read_basic (some (h, fs)) = some (record {
  client_guid = h.client_guid;
  sequence_number = joined_sn h.sn_high h.sn_low;
  message = fs;
})

-- The enhanced mapping takes guid and number from the sample.
unfoldable pub read_enhanced : Sample → Option Fields → Option Read
unfolding dds_guid_to_ros_guid
read_enhanced s none = none
read_enhanced s (some fs) = some (record {
  client_guid = dds_guid_to_ros_guid s.src_guid;
  sequence_number = dds_sn_to_ros_sn s.seq;
  message = fs;
})

-- What is written to `*request_header`.
unfoldable pub header_for : Sample → Read → RequestHeader
unfolding to_nanoseconds
header_for s r = record {
  source_timestamp = to_nanoseconds s.source_timestamp;
  received_timestamp = to_nanoseconds s.reception_timestamp;
  sequence_number = r.sequence_number;
  writer_guid = r.client_guid;
}
