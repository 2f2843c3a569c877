-- ===== src/Service/Deserialize.antt =====
-- Reading requests and responses
-- (rmw_gurumdds_cpp/include/rmw_gurumdds_cpp/type_support_service.inl).
use rmw_gurumdds.Base.{ℕ, Bool, true, false, List, ◌++◌, Option, none, some, Result, ok, ◌>>=◌}
use rmw_gurumdds.Cdr.Memory.{Mem, Endian, word_bytes}
use rmw_gurumdds.Cdr.Words.{w32, w64}
use rmw_gurumdds.Cdr.Buffer.{CdrBuffer, deserialization_buffer}
use rmw_gurumdds.Cdr.Read.{read_word, read_string}
use rmw_gurumdds.Message.Types.{Shape, Members, Fields}
use rmw_gurumdds.Message.Deserialize.{deserialize}
use rmw_gurumdds.Message.Convert.{catch_runtime_error}
use rmw_gurumdds.Service.{ServiceMembers}

-- What is written through the pointers `client_guid`, `sn_high` and `sn_low`.
pub record Header : Type 0 where
  pub client_guid : List ℕ
  pub sn_high : ℕ
  pub sn_low : ℕ

module _ (sys : Endian) where
  module _ (swap : Bool) where
    -- The value of what stands behind the sequence number is not used.
    unfoldable pub read_tail : Bool → CdrBuffer → Result (Unit {0} × CdrBuffer)
    read_tail true d = do (instance_name, d) ← read_string sys swap d; ok (tt, d)
    read_tail false d = do (remote_ex, d) ← read_word sys swap w32 d; ok (tt, d)

    -- The lines `buffer >> ...` of `deserialize_service_basic`.
    unfoldable pub read_header : Bool → CdrBuffer → Result (Header × CdrBuffer)
    unfolding read_tail
    read_header is_request d = do
      (first, d) ← read_word sys swap w64 d
      (second, d) ← read_word sys swap w64 d
      (high, d) ← read_word sys swap w32 d
      (low, d) ← read_word sys swap w32 d
      (_, d) ← read_tail is_request d
      ok (
        record {
          client_guid = word_bytes sys 8 first ++ word_bytes sys 8 second;
          sn_high = high;
          sn_low = low;
        },
        d,
      )

  module _ (accepts : Shape → ℕ → Bool) (mem : Mem) where
    -- These return what they fill in, or `none` for false.
    unfoldable pub deserialize_service_basic :
        Option Members → ℕ → ℕ → Bool → Result (Option (Header × Fields))
    unfolding read_header catch_runtime_error
    deserialize_service_basic none dds_service size is_request = ok none
    deserialize_service_basic (some ms) dds_service size is_request = catch_runtime_error (do
      (swap, d) ← deserialization_buffer sys mem dds_service size
      (header, d) ← read_header swap is_request d
      (fs, d) ← deserialize sys swap accepts ms d
      ok (header, fs))

    unfoldable pub deserialize_request_basic :
        Option ServiceMembers → ℕ → ℕ → Result (Option (Header × Fields))
    unfolding deserialize_service_basic
    deserialize_request_basic none dds_request size = ok none
    deserialize_request_basic (some s) dds_request size =
        deserialize_service_basic s.request_members dds_request size true

    unfoldable pub deserialize_response_basic :
        Option ServiceMembers → ℕ → ℕ → Result (Option (Header × Fields))
    unfolding deserialize_service_basic
    deserialize_response_basic none dds_response size = ok none
    deserialize_response_basic (some s) dds_response size =
        deserialize_service_basic s.response_members dds_response size false

    unfoldable pub deserialize_service_enhanced : Option Members → ℕ → ℕ → Result (Option Fields)
    unfolding catch_runtime_error
    deserialize_service_enhanced none dds_service size = ok none
    deserialize_service_enhanced (some ms) dds_service size = catch_runtime_error (do
      (swap, d) ← deserialization_buffer sys mem dds_service size
      (fs, d) ← deserialize sys swap accepts ms d
      ok fs)

    unfoldable pub deserialize_request_enhanced :
        Option ServiceMembers → ℕ → ℕ → Result (Option Fields)
    unfolding deserialize_service_enhanced
    deserialize_request_enhanced none dds_request size = ok none
    deserialize_request_enhanced (some s) dds_request size =
        deserialize_service_enhanced s.request_members dds_request size

    unfoldable pub deserialize_response_enhanced :
        Option ServiceMembers → ℕ → ℕ → Result (Option Fields)
    unfolding deserialize_service_enhanced
    deserialize_response_enhanced none dds_response size = ok none
    deserialize_response_enhanced (some s) dds_response size =
        deserialize_service_enhanced s.response_members dds_response size
