-- ===== src/Sosreport/Logs/Names.antt =====
-- Which files are taken for the log of a container.
use ovn_kubernetes_mcp.Text.Paths.Elements.{split_last_sound, split_last-append}
use ovn_kubernetes_mcp.Text.Joins.{Lacks}
use ovn_kubernetes_mcp.Prelude.{
  every, is_empty-eq, Bool-cases, Option-cases, ◌≡◌, ◌≢◌, ◌↔◌, ◌⊎◌, refl, sym, ap, ◌∙◌, inl, inr,
  Bool, true, false, ◌&&◌, [], ◌∷◌, ◌++◌, Option, none, some, arith, All, every_iff,
}
use mathlib.Core.Path.{subst}
use mathlib.Core.List.{reverse-append}
use ovn_kubernetes_mcp.Text.{Text, codes, has_prefix, has_suffix, trim_prefix, trim_suffix}
use ovn_kubernetes_mcp.Text.Laws.{has_prefix_iff, text_eq_iff}
use ovn_kubernetes_mcp.Text.Paths.{base, split_last}
use ovn_kubernetes_mcp.Text.Suffixes.{
  has_suffix_sound, has_suffix-append, trim_prefix-append, trim_suffix-append, trim_suffix_none,
}
use ovn_kubernetes_mcp.Sosreport.Logs.{
  is_hex_digit, container_name_of, parse_container_name, is_wanted, matches_base,
  matches_container_log_file,
}

-- What may stand behind a container's name: a hyphen and hexadecimal digits, one or more.
abbrev pub IsContainerId : Text → Type 0
IsContainerId id = (id ≢ []) × All (λ c. is_hex_digit c ≡ true) id

hex-Lacks : (id : Text) → All (λ c. is_hex_digit c ≡ true) id → Lacks b'-' id
hex-Lacks [] h = tt
hex-Lacks (c ∷ id) (e, h) = (ground arith, hex-Lacks id h)

some_eq : {a b : Text} → some a ≡ some b → a ≡ b
some_eq e = cc

container_name_of_iff :
    (a b n : Text)
    → (container_name_of (some (a, b)) ≡ some n) ↔ ((a ≡ n) × (n ≢ []) × IsContainerId b)
container_name_of_iff [] b n = (λ h. cc, λ (e, f, _). absurd (f (sym e)))
container_name_of_iff (c ∷ s) [] n = (λ h. cc, λ (_, _, (f, _)). absurd (f refl))
container_name_of_iff (c ∷ s) (d ∷ id) n = elim (Bool-cases (every is_hex_digit (d ∷ id))) [
  | inl e ↦ rw e (
    λ h.
        let same = some_eq h in
        (same, (λ q. cc), ((λ q. cc), (every_iff is_hex_digit (d ∷ id)).0 e)),
    λ (same, _, _). ap (λ (t : Text). some t) same,
  )
  | inr e ↦ rw e (
    λ h. cc,
    λ (_, _, (_, hex)). absurd (ground (arith, (every_iff is_hex_digit (d ∷ id)).1 hex)),
  )
]

pub parse_container_name_iff :
    (t n : Text)
    → (parse_container_name t ≡ some n)
      ↔ ((id : Text) × (t ≡ n ++ (b'-' ∷ id)) × (n ≢ []) × IsContainerId id)
unfolding parse_container_name
parse_container_name_iff t n = (
  λ h. elim (Option-cases (split_last b'-' t)) [
    | inl e ↦ let dead : container_name_of none ≡ some n = sym (ap container_name_of e) ∙ h in cc
    | inr ((a, id), e) ↦
        let (same, full, hex) =
          (container_name_of_iff a id n).0 (sym (ap container_name_of e) ∙ h) in
        (id, split_last_sound t b'-' a id e ∙ ap (λ (x : Text). x ++ (b'-' ∷ id)) same, full, hex)
  ],
  λ (id, e, full, (some_id, hex)).
      ap container_name_of (ap (split_last b'-') e ∙ split_last-append b'-' n id (hex-Lacks id hex))
      ∙ (container_name_of_iff n id n).1 (refl, full, (some_id, hex)),
)

both : (a b : Bool) → a && b ≡ true → (a ≡ true) × (b ≡ true)
both a b h = ground arith

together : (a b : Bool) → a ≡ true → b ≡ true → a && b ≡ true
together a b h k = ground arith

-- The container that is asked for, or any if none is.
abbrev pub Wants : Text → Text → Type 0
Wants container n = (container ≡ []) ⊎ (n ≡ container)

is_wanted_iff :
    (container : Text) (o : Option Text)
    → (is_wanted container o ≡ true) ↔ ((n : Text) × (o ≡ some n) × Wants container n)
is_wanted_iff container none = (λ h. cc, λ (n, e, _). cc)
is_wanted_iff container (some n) = (
  λ h. (n, refl, ground (arith, text_eq_iff n container, is_empty-eq {0} container)),
  λ (m, e, w). elim w [
    | inl none_asked ↦ rw none_asked refl
    | inr same ↦ ground (arith, (text_eq_iff n container).1 (some_eq e ∙ same))
  ],
)

abbrev pub pod_prefix : Text → Text → Text
pod_prefix namespace name = name ++ (codes "_" ++ (namespace ++ codes "_"))

-- `<pod_name>_<namespace>_<container_name>-<container_id>.log`
abbrev pub IsLogName : Text → Text → Text → Text → Type 0
IsLogName namespace name container file =
    (wanted : Text) × (id : Text) × (file
      ≡ (pod_prefix namespace name ++ (wanted ++ (b'-' ∷ id))) ++ codes ".log")
    × (wanted ≢ [])
    × IsContainerId id
    × Wants container wanted

stem_iff :
    (namespace name container stem : Text)
    → (has_prefix stem (pod_prefix namespace name)
          && is_wanted container
              (parse_container_name (trim_prefix stem (pod_prefix namespace name)))
        ≡ true)
      ↔ ((wanted : Text) × (id : Text) × (stem
            ≡ pod_prefix namespace name ++ (wanted ++ (b'-' ∷ id)))
          × (wanted ≢ [])
          × IsContainerId id
          × Wants container wanted)
stem_iff namespace name container stem =
    let prefix = pod_prefix namespace name in
    (
      λ h.
          let (starts, ends) = both _ _ h in
          let (r, e) = (has_prefix_iff stem prefix).0 starts in
          let trimmed : trim_prefix stem prefix ≡ r =
            ap (λ (t : Text). trim_prefix t prefix) e ∙ trim_prefix-append prefix r in
          let (wanted, f, w) =
            (is_wanted_iff container (parse_container_name (trim_prefix stem prefix))).0 ends in
          let (id, g, full, hex) =
            (parse_container_name_iff r wanted).0 (sym (ap parse_container_name trimmed) ∙ f) in
          (wanted, id, e ∙ ap (λ (t : Text). prefix ++ t) g, full, hex, w),
      λ (wanted, id, e, full, hex, w).
          let rest = wanted ++ (b'-' ∷ id) in
          let trimmed : trim_prefix stem prefix ≡ rest =
            ap (λ (t : Text). trim_prefix t prefix) e ∙ trim_prefix-append prefix rest in
          let parsed : parse_container_name (trim_prefix stem prefix) ≡ some wanted =
            ap parse_container_name trimmed
            ∙ (parse_container_name_iff rest wanted).1 (id, refl, full, hex) in
          together _ _ ((has_prefix_iff stem prefix).1 (rest, e))
            ((is_wanted_iff container _).1 (wanted, parsed, w)),
    )

matches_base_iff :
    (namespace name container file : Text)
    → (matches_base file namespace name container ≡ true) ↔ IsLogName namespace name container file
unfolding matches_base
matches_base_iff namespace name container file = (
  λ h.
      let (ends, more) = both _ _ h in
      let (r, e) = has_suffix_sound file (codes ".log") ends in
      let trimmed : trim_suffix file (codes ".log") ≡ r =
        ap (λ (t : Text). trim_suffix t (codes ".log")) e ∙ trim_suffix-append r (codes ".log") in
      let (wanted, id, f, full, hex, w) =
        (stem_iff namespace name container (trim_suffix file (codes ".log"))).0 more in
      (wanted, id, e ∙ ap (λ (t : Text). t ++ codes ".log") (sym trimmed ∙ f), full, hex, w),
  λ (wanted, id, e, full, hex, w).
      let stem = pod_prefix namespace name ++ (wanted ++ (b'-' ∷ id)) in
      let trimmed : trim_suffix file (codes ".log") ≡ stem =
        ap (λ (t : Text). trim_suffix t (codes ".log")) e
        ∙ trim_suffix-append stem (codes ".log") in
      together _ _
        (ap (λ (t : Text). has_suffix t (codes ".log")) e ∙ has_suffix-append stem (codes ".log"))
        ((stem_iff namespace name container (trim_suffix file (codes ".log"))).1
          (wanted, id, trimmed, full, hex, w)),
)

log_not_gz : (r : Text) → has_suffix (r ++ codes ".log") (codes ".gz") ≡ false
unfolding has_suffix
log_not_gz r = rw (reverse-append r (codes ".log")) refl

gz_cases :
    (b : Text)
    → (b ≡ trim_suffix b (codes ".gz")) ⊎ (b ≡ trim_suffix b (codes ".gz") ++ codes ".gz")
gz_cases b = elim (Bool-cases (has_suffix b (codes ".gz"))) [
  | inl e ↦
      let (r, f) = has_suffix_sound b (codes ".gz") e in
      let t : trim_suffix b (codes ".gz") ≡ r =
        ap (λ (x : Text). trim_suffix x (codes ".gz")) f ∙ trim_suffix-append r (codes ".gz") in
      inr (f ∙ ap (λ (x : Text). x ++ codes ".gz") (sym t))
  | inr e ↦ inl (sym (trim_suffix_none b (codes ".gz") e))
]

gz_trimmed :
    (namespace name container path file : Text)
    → (base path ≡ file) ⊎ (base path ≡ file ++ codes ".gz")
    → IsLogName namespace name container file
    → file ≡ trim_suffix (base path) (codes ".gz")
gz_trimmed namespace name container path file (inl e) (wanted, id, f, full, hex, w) =
    let stem = pod_prefix namespace name ++ (wanted ++ (b'-' ∷ id)) in
    let plain : has_suffix (base path) (codes ".gz") ≡ false =
      ap (λ (x : Text). has_suffix x (codes ".gz")) (e ∙ f) ∙ log_not_gz stem in
    sym (trim_suffix_none (base path) (codes ".gz") plain ∙ e)
gz_trimmed namespace name container path file (inr e) named =
    sym (ap (λ (x : Text). trim_suffix x (codes ".gz")) e ∙ trim_suffix-append file (codes ".gz"))

-- A path is taken for the log of a container of the pod exactly if its last element is named
-- `<pod>_<namespace>_<container>-<id>.log`, perhaps with `.gz` behind it, for a container with a name,
-- and an id of hexadecimal digits, one or more; a container that is asked for has to be that one.
pub matches_container_log_file_iff :
    (path namespace name container : Text)
    → (matches_container_log_file path namespace name container ≡ true) ↔ (
        (file : Text) × ((base path ≡ file) ⊎ (base path ≡ file ++ codes ".gz"))
        × IsLogName namespace name container file)
unfolding matches_container_log_file
matches_container_log_file_iff path namespace name container =
    let trimmed = trim_suffix (base path) (codes ".gz") in
    let (to, from) = matches_base_iff namespace name container trimmed in
    (
      λ h. (trimmed, gz_cases (base path), to h),
      λ (file, shape, named). from (
          subst (IsLogName namespace name container)
            (gz_trimmed namespace name container path file shape named) named),
    )
