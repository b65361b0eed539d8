-- ===== src/Kernel/Ip/Shows.antt =====
-- Which commands `validateIPCommand` of pkg/kernel/mcp/ip.go accepts.
use ovn_kubernetes_mcp.Text.Fields.{fields-nonempty, fields-trim_space}
use ovn_kubernetes_mcp.Text.Laws.{text_eq_iff, has_prefix_iff}
use ovn_kubernetes_mcp.Kernel.Ip.{
  validate_ip_command, validate_ip_words, match_fields, valid_ip_commands, fits_command,
}
use ovn_kubernetes_mcp.Prelude.{
  any_iff, not, ok, reject_if, Error, inr, Bool-cases, Bool, inl, arith, ◌&&◌, true, refl, All, ◌⊎◌,
  ◌++◌, [], false, ◌≢◌, ◌∷◌, ◌≡◌, List, Any,
}
use ovn_kubernetes_mcp.Text.{trim_space, is_atoi, text_eq, has_prefix, Text, codes, fields}

abbrev pub nouns : List Text
nouns =
    codes "address"
    ∷ codes "link"
    ∷ codes "neighbour"
    ∷ codes "netns"
    ∷ codes "route"
    ∷ codes "rule"
    ∷ codes "vrf"
    ∷ []

-- A word that is not empty and starts the given one.
abbrev pub Abbreviates : Text → Text → Type 0
Abbreviates w full = (w ≢ []) × ((r : Text) × (full ≡ w ++ r))

-- `<noun> show ...` with either word abbreviated, but not `l... s`; or `xfrm state list ...` or
-- `xfrm policy list ...`.
pub data IpShows : List Text → Type 0 where
  show :
      {w v : Text} {words : List Text}
      → Any (λ noun. Abbreviates w noun) nouns
      → Abbreviates v (codes "show")
      → (has_prefix w (codes "l") ≡ false) ⊎ (v ≢ codes "s")
      → IpShows (w ∷ v ∷ words)
  xfrm :
      {w x v : Text} {words : List Text}
      → Abbreviates w (codes "xfrm")
      → Abbreviates x (codes "state") ⊎ Abbreviates x (codes "policy")
      → Abbreviates v (codes "list")
      → IpShows (w ∷ x ∷ v ∷ words)

-- What a round of the loop says for a command of one word.
fits_one :
    (noun w v : Text) (words : List Text)
    → w ≢ []
    → v ≢ []
    → fields noun ≡ noun ∷ []
    → fits_command noun (fields noun) (w ∷ v ∷ words) ≡ true
    → Abbreviates w noun × Abbreviates v (codes "show")
unfolding fits_command
fits_one noun w v words hw hv e h =
    let both : has_prefix noun w && has_prefix (codes "show") v ≡ true =
      rw (e, fits_command) at h in
    (
      (hw, (has_prefix_iff noun w).0 (ground arith)),
      (hv, (has_prefix_iff (codes "show") v).0 (ground arith)),
    )

and_right : (a b : Bool) → a && b ≡ true → b ≡ true
and_right a b h = ground arith

keep_guard :
    (p : Bool) (v : Text) → p && text_eq v (codes "s") ≡ false → (p ≡ false) ⊎ (v ≢ codes "s")
keep_guard false v h = inl refl
keep_guard true v h = inr (λ e. ground (arith, text_eq_iff v (codes "s")))

not_rejected : (b : Bool) (e : Error) {u : Unit {0}} → reject_if (not b) e ≡ ok u → b ≡ true
not_rejected true e h = refl
not_rejected false e h = cc

-- The third word that a command of two words needs.
fits_third :
    (command f g w v : Text) (words : List Text)
    → fits_command command (f ∷ g ∷ []) (w ∷ v ∷ words) ≡ true
    → (x : Text) × (rest : List Text) × (words ≡ x ∷ rest)
      × (has_prefix f w ≡ true)
      × (has_prefix g v ≡ true)
      × (has_prefix (codes "list") x ≡ true)
unfolding fits_command match_fields
fits_third command f g w v [] h = elim (Bool-cases (has_prefix f w)) [
  | inl a ↦ elim (Bool-cases (has_prefix g v)) [
    | inl b ↦ absurd (ground (arith, rw (a, b, fits_command, match_fields) at h))
    | inr b ↦ absurd (ground (arith, rw (a, b, fits_command, match_fields) at h))
  ]
  | inr a ↦ absurd (ground (arith, rw (a, fits_command, match_fields) at h))
]
fits_third command f g w v (x ∷ rest) h = elim (Bool-cases (has_prefix f w)) [
  | inl a ↦ elim (Bool-cases (has_prefix g v)) [
    | inl b ↦ (x, rest, refl, a, b, and_right _ _ (rw (a, b, fits_command, match_fields) at h))
    | inr b ↦ absurd (ground (arith, rw (a, b, fits_command, match_fields) at h))
  ]
  | inr a ↦ absurd (ground (arith, rw (a, fits_command, match_fields) at h))
]

-- What a round of the loop says for a command of two words.
fits_two :
    (command second w v : Text) (words : List Text)
    → All (λ t. t ≢ []) (w ∷ v ∷ words)
    → (second ≡ codes "state") ⊎ (second ≡ codes "policy")
    → fits_command command (codes "xfrm" ∷ second ∷ []) (w ∷ v ∷ words) ≡ true
    → IpShows (w ∷ v ∷ words)
fits_two command second w v words ne which h =
    let (x, rest, more, a, b, c) = fits_third command (codes "xfrm") second w v words h in
    let (hw, (hv, (hx, _))) : All (λ t. t ≢ []) (w ∷ v ∷ x ∷ rest) = rw more at ne in
    let second_word : Abbreviates v second = (hv, (has_prefix_iff second v).0 b) in
    let shown : IpShows (w ∷ v ∷ x ∷ rest) =
      xfrm (hw, (has_prefix_iff (codes "xfrm") w).0 a)
        (elim which [ inl e ↦ inl (rw e at second_word) | inr e ↦ inr (rw e at second_word) ])
        (hx, (has_prefix_iff (codes "list") x).0 c) in
    rw more shown

loop_shows :
    (w v : Text) (words : List Text)
    → All (λ t. t ≢ []) (w ∷ v ∷ words)
    → (has_prefix w (codes "l") ≡ false) ⊎ (v ≢ codes "s")
    → Any
        (λ command. fits_command command (fields command) (w ∷ v ∷ words) ≡ true)
        valid_ip_commands
    → IpShows (w ∷ v ∷ words)
unfolding fields
loop_shows w v words ne g (inl h) =
    let (a, b) = fits_one (codes "address") w v words ne.0 ne.1.0 refl h in show (inl a) b g
loop_shows w v words ne g (inr (inl h)) =
    let (a, b) = fits_one (codes "link") w v words ne.0 ne.1.0 refl h in show (inr (inl a)) b g
loop_shows w v words ne g (inr (inr (inl h))) =
    let (a, b) = fits_one (codes "neighbour") w v words ne.0 ne.1.0 refl h in
    show (inr (inr (inl a))) b g
loop_shows w v words ne g (inr (inr (inr (inl h)))) =
    let (a, b) = fits_one (codes "netns") w v words ne.0 ne.1.0 refl h in
    show (inr (inr (inr (inl a)))) b g
loop_shows w v words ne g (inr (inr (inr (inr (inl h))))) =
    let (a, b) = fits_one (codes "route") w v words ne.0 ne.1.0 refl h in
    show (inr (inr (inr (inr (inl a))))) b g
loop_shows w v words ne g (inr (inr (inr (inr (inr (inl h)))))) =
    let (a, b) = fits_one (codes "rule") w v words ne.0 ne.1.0 refl h in
    show (inr (inr (inr (inr (inr (inl a)))))) b g
loop_shows w v words ne g (inr (inr (inr (inr (inr (inr (inl h))))))) =
    let (a, b) = fits_one (codes "vrf") w v words ne.0 ne.1.0 refl h in
    show (inr (inr (inr (inr (inr (inr (inl a))))))) b g
loop_shows w v words ne g (inr (inr (inr (inr (inr (inr (inr (inl h)))))))) =
    fits_two (codes "xfrm state") (codes "state") w v words ne (inl refl) h
loop_shows w v words ne g (inr (inr (inr (inr (inr (inr (inr (inr (inl h))))))))) =
    fits_two (codes "xfrm policy") (codes "policy") w v words ne (inr refl) h
loop_shows w v words ne g (inr (inr (inr (inr (inr (inr (inr (inr (inr h))))))))) = absurd h

validate_ip_words-IpShows :
    (e : Error) (ws : List Text) {u : Unit {0}}
    → All (λ t. t ≢ []) ws
    → validate_ip_words e ws ≡ ok u
    → IpShows ws
unfolding validate_ip_words
validate_ip_words-IpShows e [] ne h = cc
validate_ip_words-IpShows e (w ∷ []) ne h = cc
validate_ip_words-IpShows e (w ∷ v ∷ words) ne h =
    elim (Bool-cases (has_prefix w (codes "l") && text_eq v (codes "s"))) [
      | inl l ↦ absurd (ground (arith, rw l at h))
      | inr l ↦ loop_shows w v words ne (keep_guard _ v l) (
          (any_iff (λ command. fits_command command (fields command) (w ∷ v ∷ words))
              valid_ip_commands).0
            (not_rejected _ _ (rw l at h)))
    ]

pub validate_ip_command-IpShows :
    (command : Text) {u : Unit {0}} → validate_ip_command command ≡ ok u → IpShows (fields command)
unfolding validate_ip_command
validate_ip_command-IpShows command h = elim (Bool-cases (is_atoi command)) [
  | inl e ↦ absurd (ground (arith, rw e at h))
  | inr e ↦ rw (← fields-trim_space command) (
      validate_ip_words-IpShows _ (fields (trim_space command))
        (fields-nonempty (trim_space command)) (rw e at h))
]
