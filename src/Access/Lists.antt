-- ===== src/Access/Lists.antt =====
-- What a normalised list holds, what the check of an entry reads of it, and how long the guard may go
-- by an old list.
use crypto_sim_backend.Common.{
  ℕ, ◌+◌, ◌≤◌, ◌≡◌, refl, ◌==◌, ltb, Bool, true, false, List, [], ◌∷◌, ◌++◌, any, All, All-map,
  Option, none, some, Text, text_eq, text_eq_sym, trim, ok, Bool-cases, Result-cases, inl, inr,
  arith,
}
use crypto_sim_backend.Access.Frontend.{
  Net, before_slash, behind_slash, is_empty, is_valid_ip_or_cidr, normalize_from, normalize_ips,
}
use crypto_sim_backend.Access.Guard.{
  IpWhitelistConfig, Cache, get_cached_config, cache_ttl_ms, IpAddr, can_activate, check_config,
  get_client_ip, is_admin_path,
}

-- No text stands in the list again.
abbrev pub IsNodup : List Text → Type 0
IsNodup [] = Unit
IsNodup (s ∷ ss) = (any (text_eq s) ss ≡ false) × IsNodup ss

-- What the loop returns: valid entries, each once, none seen before.
record IsClean (net : Net) (seen out : List Text) : Type 0 where
  valid : All (λ s. is_valid_ip_or_cidr net s ≡ true) out
  nodup : IsNodup out
  unseen : All (λ s. any (text_eq s) seen ≡ false) out

not_in :
    (s : Text) (seen out : List Text)
    → All (λ x. any (text_eq x) (s ∷ seen) ≡ false) out
    → any (text_eq s) out ≡ false
not_in s seen [] h = refl
not_in s seen (x ∷ out) h = elim (Bool-cases (text_eq x s)) [
  | inl same ↦ absurd (ground (arith, h.0))
  | inr other ↦ rw (text_eq_sym s x, other) (not_in s seen out h.1)
]

unseen_before :
    (s x : Text) (seen : List Text)
    → any (text_eq x) (s ∷ seen) ≡ false
    → any (text_eq x) seen ≡ false
unseen_before s x seen h = ground arith

IsClean-cons :
    (net : Net) (seen : List Text) (s : Text) (rest : List Text)
    → is_valid_ip_or_cidr net s ≡ true
    → any (text_eq s) seen ≡ false
    → IsClean net (s ∷ seen) rest
    → IsClean net seen (s ∷ rest)
IsClean-cons net seen s rest good new i = record {
  valid = (good, i.valid);
  nodup = (not_in s seen rest i.unseen, i.nodup);
  unseen = (new, All-map rest (λ x. unseen_before s x seen) i.unseen);
}

normalize_from-IsClean :
    (net : Net) (seen raws out : List Text)
    → normalize_from net seen raws ≡ ok out
    → IsClean net seen out
unfolding normalize_from
normalize_from-IsClean net seen [] out h =
    let e : out ≡ [] = cc in rw e (record { valid = tt; nodup = tt; unseen = tt })
normalize_from-IsClean net seen (raw ∷ raws) out h = elim (Bool-cases (is_empty (trim raw))) [
  | inl empty ↦ normalize_from-IsClean net seen raws out (rw (empty, normalize_from) at h)
  | inr filled ↦ elim (Bool-cases (any (text_eq (trim raw)) seen)) [
    | inl old ↦ normalize_from-IsClean net seen raws out (rw (filled, old, normalize_from) at h)
    | inr new ↦ elim (Bool-cases (is_valid_ip_or_cidr net (trim raw))) [
      | inr bad ↦ absurd (ground arith)
      | inl good ↦ elim (Result-cases (normalize_from net (trim raw ∷ seen) raws)) [
        | inr (e, failed) ↦ absurd (ground arith)
        | inl (rest, went) ↦
            let i = normalize_from-IsClean net (trim raw ∷ seen) raws rest went in
            let e : out ≡ trim raw ∷ rest = ground arith in
            rw e (IsClean-cons net seen (trim raw) rest good new i)
      ]
    ]
  ]
]

-- The list that is stored has valid entries only, and each of them once.
pub normalize_ips-clean :
    (net : Net) (raws out : List Text)
    → normalize_ips net raws ≡ ok out
    → All (λ s. is_valid_ip_or_cidr net s ≡ true) out × IsNodup out
unfolding normalize_ips
normalize_ips-clean net raws out h =
    let i = normalize_from-IsClean net [] raws out h in (i.valid, i.nodup)

abbrev pub has_slash : Text → Bool
has_slash s = any (λ c. c == b'/') s

before-append : (s t : Text) → has_slash s ≡ false → before_slash (s ++ (b'/' ∷ t)) ≡ s
before-append [] t h = refl
before-append (c ∷ s) t h = ground (arith, before-append s t)

behind-append : (s t : Text) → has_slash s ≡ false → behind_slash (s ++ (b'/' ∷ t)) ≡ some t
behind-append [] t h = refl
behind-append (c ∷ s) t h = ground (arith, behind-append s t)

before_none : (s : Text) → has_slash s ≡ false → before_slash s ≡ s
before_none [] h = refl
before_none (c ∷ s) h = ground (arith, before_none s)

-- Nothing is read behind a second slash: where an address with the length of a prefix is valid, so is
-- every text that begins with it and a further slash, whatever follows.
pub is_valid-behind :
    (net : Net) (ip cidr rest : Text)
    → has_slash ip ≡ false
    → has_slash cidr ≡ false
    → is_valid_ip_or_cidr net (ip ++ (b'/' ∷ cidr)) ≡ true
    → is_valid_ip_or_cidr net (ip ++ (b'/' ∷ (cidr ++ (b'/' ∷ rest)))) ≡ true
unfolding is_valid_ip_or_cidr
is_valid-behind net ip cidr rest h k valid =
    rw
      (
        before-append ip (cidr ++ (b'/' ∷ rest)) h,
        behind-append ip (cidr ++ (b'/' ∷ rest)) h,
        before-append cidr rest k,
      )
      (rw (before-append ip cidr h, behind-append ip cidr h, before_none cidr k) at valid)

-- The cache is empty, or runs out at most five seconds after a time.
abbrev pub IsRecent : ℕ → Cache → Type 0
IsRecent now none = Unit
IsRecent now (some (config, expires_at)) = expires_at ≤ now + cache_ttl_ms

-- A request to the administration goes by the current list, if it comes at least five seconds after a
-- time at which the cache was empty or had at most five seconds to run.
pub can_activate-current :
    (lib : IpAddr) (then_ now : ℕ) (path : Text) (raw_ip : Option Text)
    (current : IpWhitelistConfig) (cache : Cache)
    → IsRecent then_ cache
    → then_ + cache_ttl_ms ≤ now
    → is_admin_path path ≡ true
    → (can_activate lib now path raw_ip current cache).0
      ≡ check_config lib current (get_client_ip raw_ip)
unfolding can_activate get_cached_config
can_activate-current lib then_ now path raw_ip current none r later admin =
    rw (admin, can_activate) refl
can_activate-current lib then_ now path raw_ip current (some (config, expires_at)) r later admin =
    let over : ltb now expires_at ≡ false = ground arith in rw (admin, over, can_activate) refl
