-- ===== src/Access/Tests.antt =====
-- The theorems on the lists of addresses at concrete calls, with one address known.
use crypto_sim_backend.Common.{
  ◌≡◌, refl, pos, All, true, [], ◌∷◌, ◌++◌, text, text_eq, if◌then◌else◌, trim,
}
use crypto_sim_backend.Database.{NumberValue}
use crypto_sim_backend.Access.Frontend.{Net, is_valid_ip_or_cidr, normalize_ips}
use crypto_sim_backend.Access.Lists.{IsNodup, normalize_ips-clean, is_valid-behind}

abbrev net : Net
net = record {
  is_ip = λ s. if text_eq s (text "1.2.3.4") then 4 else 0;
  number_of =
      λ s. if text_eq s (text "8") then NumberValue.whole (pos 8) else NumberValue.not_whole;
}

normalize_ips-clean_example :
    All (λ s. is_valid_ip_or_cidr net s ≡ true) (text "1.2.3.4/8" ∷ [])
    × IsNodup (text "1.2.3.4/8" ∷ [])
unfolding normalize_ips trim
normalize_ips-clean_example =
    normalize_ips-clean net (text " 1.2.3.4/8" ∷ [] ∷ text "1.2.3.4/8 " ∷ [])
      (text "1.2.3.4/8" ∷ []) refl

is_valid-behind_example :
    is_valid_ip_or_cidr net (text "1.2.3.4" ++ (b'/' ∷ (text "8" ++ (b'/' ∷ text "; allow all"))))
    ≡ true
unfolding is_valid_ip_or_cidr
is_valid-behind_example =
    is_valid-behind net (text "1.2.3.4") (text "8") (text "; allow all") refl refl refl
