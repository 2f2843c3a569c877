-- ===== src/Service/Tests.antt =====
-- The theorems on requests and responses at concrete inputs.
use rmw_gurumdds.Base.{ℕ, ◌^◌, ◌<◌, ◌≡◌, refl, ◌↔◌, true, List, [], ◌∷◌, arith}
use rmw_gurumdds.Cdr.Memory.{big, little}
use rmw_gurumdds.Cdr.Buffer.{align_up}
use rmw_gurumdds.Message.Types.{count}
use rmw_gurumdds.Message.Typing.{members_end}
use rmw_gurumdds.Service.Numbers.{sn_high, sn_low, joined_sn, joined_sn-sn_high}
use rmw_gurumdds.Service.Layout.{IsGuid}
use rmw_gurumdds.Service.Roundtrip.{service_size, ServiceDelivered, service_delivered}
use rmw_gurumdds.Tests.{sample_type, sample, at_most_100, empty_memory, sample-HasType}

abbrev pub guid_1_to_16 : List ℕ
guid_1_to_16 = 1 ∷ 2 ∷ 3 ∷ 4 ∷ 5 ∷ 6 ∷ 7 ∷ 8 ∷ 9 ∷ 10 ∷ 11 ∷ 12 ∷ 13 ∷ 14 ∷ 15 ∷ 16 ∷ []

pub guid_1_to_16-IsGuid : IsGuid guid_1_to_16
guid_1_to_16-IsGuid = (
  refl,
  (
    omega arith,
    (
      omega arith,
      (
        omega arith,
        (
          omega arith,
          (
            omega arith,
            (
              omega arith,
              (
                omega arith,
                (
                  omega arith,
                  (
                    omega arith,
                    (
                      omega arith,
                      (
                        omega arith,
                        (
                          omega arith,
                          (omega arith, (omega arith, (omega arith, (omega arith, tt)))),
                        ),
                      ),
                    ),
                  ),
                ),
              ),
            ),
          ),
        ),
      ),
    ),
  ),
)

-- The numbers 2 ^ 32 - 1 and 2 ^ 32.
joined_sn-sn_high_example :
    (joined_sn (sn_high 4294967295) (sn_low 4294967295) ≡ 4294967295) ↔ (4294967295 < 2 ^ 32)
joined_sn-sn_high_example = joined_sn-sn_high 4294967295 (omega arith)

lost_number : joined_sn (sn_high 4294967296) (sn_low 4294967296) ≡ 2 ^ 56
unfolding joined_sn sn_high sn_low
lost_number = refl

request_size : service_size true sample_type sample ≡ 60
unfolding members_end count align_up
request_size = refl

service_delivered_example :
    ServiceDelivered big little at_most_100 sample_type sample true 5 guid_1_to_16 empty_memory 100
      80
service_delivered_example =
    service_delivered big little at_most_100 sample_type sample sample-HasType true 5 guid_1_to_16
      (omega arith) guid_1_to_16-IsGuid empty_memory 100 80 (omega (arith, request_size))
      (omega arith)
