-- ===== src/Main/Networks.antt =====
-- main.go: the networks that `LOCAL_NETS` names, and those of the interfaces.
use bandwidth_monitor.Common.{
  ◌≡◌, refl, sym, ap, ◌∙◌, ◌≢◌, ◌⊎◌, inl, inr, false, Bool-cases, Option, none, some, List, [], ◌∷◌,
  ◌++◌, String, string_eq, map, All,
}
use bandwidth_monitor.Net.{IpNet}
use bandwidth_monitor.Texts.{◌<>◌}
use bandwidth_monitor.Texts.Split.{
  split_on, trim_space, comma, Lacks, HasNoSpace, split_on-Lacks, split_on-comma,
  trim_space-HasNoSpace, append-not-blank,
}
use bandwidth_monitor.Main.{
  Env, ParseCidr, add_entry, add_parsed, entries, configured, Iface, local_nets,
}

-- Texts with commas between them.
abbrev pub joined : String → List String → String
joined t [] = t
joined t (u ∷ us) = t <> "," <> joined u us

not-beq : (s : String) → s ≢ "" → string_eq.beq s "" ≡ false
not-beq s h = elim (Bool-cases (string_eq.beq s "")) [
  | inl e ↦ absurd (h ((string_eq.beq_iff s "").0 e))
  | inr e ↦ e
]

module _ (parse_cidr : ParseCidr) where
  add_parsed-append :
      (o : Option IpNet) (ns ms : List IpNet) → add_parsed o (ns ++ ms) ≡ add_parsed o ns ++ ms
  add_parsed-append none ns ms = refl
  add_parsed-append (some n) ns ms = refl

  add_entry-append :
      (e : String) (ns ms : List IpNet)
      → add_entry parse_cidr e (ns ++ ms) ≡ add_entry parse_cidr e ns ++ ms
  unfolding add_entry
  add_entry-append e ns ms = elim (Bool-cases (string_eq.beq e "")) [
    | inl blank ↦ rw blank refl
    | inr word ↦ rw word (add_parsed-append (parse_cidr e) ns ms)
  ]

  entries-append :
      (ps qs : List String)
      → entries parse_cidr (ps ++ qs) ≡ entries parse_cidr ps ++ entries parse_cidr qs
  unfolding entries
  entries-append [] qs = refl
  entries-append (p ∷ ps) qs =
      ap (add_entry parse_cidr (trim_space p)) (entries-append ps qs)
      ∙ add_entry-append (trim_space p) (entries parse_cidr ps) (entries parse_cidr qs)

  configured-comma :
      (s t : String)
      → configured parse_cidr (s <> "," <> t) ≡ configured parse_cidr s ++ configured parse_cidr t
  unfolding configured
  configured-comma s t =
      ap (entries parse_cidr) (split_on-comma s t)
      ∙ entries-append (split_on comma s) (split_on comma t)

  -- An entry that is skipped: blank, or not a network.
  abbrev pub Skipped : String → Type 0
  Skipped e = Lacks comma e × ((trim_space e ≡ "") ⊎ (parse_cidr (trim_space e) ≡ none))

  configured-Skipped : (e : String) → Skipped e → configured parse_cidr e ≡ []
  unfolding configured entries add_entry
  configured-Skipped e (lacks, inl blank) = rw (split_on-Lacks comma e lacks, blank) refl
  configured-Skipped e (lacks, inr bad) =
      rw (split_on-Lacks comma e lacks) (elim (Bool-cases (string_eq.beq (trim_space e) "")) [
        | inl blank ↦ rw blank refl
        | inr word ↦ rw (word, bad) refl
      ])

  -- An entry of `LOCAL_NETS` that is blank or cannot be parsed, wherever it stands between two texts,
  -- changes nothing: the configured networks are those of the two texts without it.
  pub configured_without :
      (s e t : String)
      → Skipped e
      → configured parse_cidr (s <> "," <> e <> "," <> t) ≡ configured parse_cidr (s <> "," <> t)
  configured_without s e t h =
      configured-comma s (e <> "," <> t)
      ∙ ap (λ ns. configured parse_cidr s ++ ns)
          (configured-comma e t ∙ ap (λ ns. ns ++ configured parse_cidr t) (configured-Skipped e h))
      ∙ sym (configured-comma s t)

  module _ (print : IpNet → String) where
    -- The text of the network is parsed to the network, and has neither a comma nor a space.
    pub record IsReadable (n : IpNet) : Type 0 where
      pub parsed : parse_cidr (print n) ≡ some n
      pub no_comma : Lacks comma (print n)
      pub no_space : HasNoSpace (print n)
      pub not_blank : print n ≢ ""

    configured-IsReadable : (n : IpNet) → IsReadable n → configured parse_cidr (print n) ≡ n ∷ []
    unfolding configured entries add_entry
    configured-IsReadable n h =
        rw
          (
            split_on-Lacks comma (print n) h.no_comma,
            trim_space-HasNoSpace (print n) h.no_space,
            not-beq (print n) h.not_blank,
            h.parsed,
          )
          refl

    configured-joined :
        (n : IpNet) (ns : List IpNet)
        → All IsReadable (n ∷ ns)
        → configured parse_cidr (joined (print n) (map print ns)) ≡ n ∷ ns
    configured-joined n [] h = configured-IsReadable n h.0
    configured-joined n (m ∷ ns) h =
        configured-comma (print n) (joined (print m) (map print ns))
        ∙ rw (configured-IsReadable n h.0) (ap (◌∷◌ n) (configured-joined m ns h.1))

    joined-not-blank : (t : String) (ts : List String) → t ≢ "" → joined t ts ≢ ""
    joined-not-blank t [] h = h
    joined-not-blank t (u ∷ ts) h = append-not-blank t _ h

    -- If `LOCAL_NETS` is the texts of one or more networks with commas between them, where each text
    -- is parsed to its network, is not empty and has neither a comma nor a space, then the local
    -- networks are these networks in this order, whatever the interfaces are.
    pub local_nets-joined :
        (getenv : Env) (ifaces : Option (List Iface)) (n : IpNet) (ns : List IpNet)
        → All IsReadable (n ∷ ns)
        → getenv "LOCAL_NETS" ≡ joined (print n) (map print ns)
        → local_nets parse_cidr getenv ifaces ≡ n ∷ ns
    unfolding local_nets
    local_nets-joined getenv ifaces n ns h e =
        rw
          (
            e,
            not-beq (joined (print n) (map print ns))
                (joined-not-blank (print n) (map print ns) h.0.not_blank),
          )
          (configured-joined n ns h)
