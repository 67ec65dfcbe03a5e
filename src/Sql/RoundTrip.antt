-- ===== src/Sql/RoundTrip.antt =====
-- What EscapeQuote and QuoteIdentifier of ddl/sq.go write is read back as one token.
use sqddl.Base.{
  ℕ, Bool, false, ◌&&◌, ◌||◌, [], ◌∷◌, ◌++◌, ◌≡◌, inl, inr, refl, if◌then◌else◌, ◌==◌, Bool-cases,
  Bytes, ==_iff,
}
use sqddl.Sql.Quote.{passes, doubles, written, escape_from, escape_quote}
use sqddl.Sql.Reading.{DoesNotStart, ReadsQuoted, closed, doubled, plain}

-- The text without the quotes that are passed over.
abbrev pub kept : ℕ → Bool → Bytes → Bytes
kept quote behind [] = []
kept quote behind (c ∷ s) =
    let more = kept quote (doubles quote behind c s) s in
    if passes quote behind c s then more else c ∷ more

doubled_as :
    (quote c : ℕ) {text content rest : Bytes}
    → c ≡ quote
    → ReadsQuoted quote text content rest
    → ReadsQuoted quote (quote ∷ quote ∷ text) (c ∷ content) rest
doubled_as quote c e r = rw e (doubled r)

pub ReadsQuoted-escape_from :
    (quote : ℕ) (behind : Bool) (s rest : Bytes)
    → DoesNotStart (λ c. c == quote) rest
    → ReadsQuoted quote (escape_from quote behind s ++ quote ∷ rest) (kept quote behind s) rest
unfolding escape_from written
ReadsQuoted-escape_from quote behind [] rest h = closed rest h
ReadsQuoted-escape_from quote behind (c ∷ s) rest h =
    let ih = ReadsQuoted-escape_from quote (doubles quote behind c s) s rest h in
    elim (Bool-cases (passes quote behind c s)) [
      | inl pass ↦ rw pass ih
      | inr stay ↦ elim (Bool-cases (c == quote)) [
        | inl same ↦ rw (stay, same) (doubled_as quote c ((==_iff c quote).0 same) ih)
        | inr other ↦ rw (stay, other) (plain c other ih)
      ]
    ]

abbrev starts_with : ℕ → Bytes → Bool
starts_with quote [] = false
starts_with quote (c ∷ s) = c == quote

-- No two quotes stand next to each other.
abbrev pub has_pair : ℕ → Bytes → Bool
has_pair quote [] = false
has_pair quote (c ∷ s) = (c == quote && starts_with quote s) || has_pair quote s

-- Two texts that differ are written the same: a pair of quotes with something else behind it is
-- taken for a quote that is doubled already, and stands for one quote.
pub escape_quote-pair :
    (quote c : ℕ) (s : Bytes)
    → (c == quote) ≡ false
    → escape_quote (quote ∷ quote ∷ c ∷ s) quote ≡ escape_quote (quote ∷ c ∷ s) quote
unfolding escape_from written doubles passes
escape_quote-pair quote c s h = rw ((==_iff quote quote).1 refl) (rw h refl)
