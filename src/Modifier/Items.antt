-- ===== src/Modifier/Items.antt =====
-- One modifier: what the printer writes for it, and how that is read back.
use sqddl.Base.{
  ℕ, ◌≤◌, true, false, [], ◌∷◌, ◌++◌, ◌≡◌, inl, inr, refl, ap, ◌∙◌, Bool-cases, length, Bytes,
  contains, All, arith, append_assoc, codes, length-append,
}
use sqddl.Modifier.{Modifier}
use sqddl.Modifier.Parse.{popped, pop_named, is_name_byte, pop_modifier_trimmed, pop_modifier}
use sqddl.Modifier.Print.{ends_in_space, separator, raw_text, write_buf}
use sqddl.Modifier.Values.{
  is_plain_byte, IsName, IsPlain, clear_dialects, item_text, Ends, span-append, All-map, plain,
  Stops, split_name-IsName, pop_raw-raw_text, trim_left-nonblank,
}

raw_text-equals : (r : ℕ) (raw : Bytes) → (t : Bytes) × (raw_text (r ∷ raw) ≡ b'=' ∷ t)
unfolding raw_text
raw_text-equals r raw = elim (Bool-cases (contains b' ' (r ∷ raw))) [
  | inl spaced ↦ rw spaced (_, refl)
  | inr solid ↦ rw solid (_, refl)
]

read_name :
    (c : ℕ) (name tail : Bytes)
    → IsName (c ∷ name)
    → Stops is_name_byte tail
    → pop_modifier (c ∷ (name ++ tail)) ≡ pop_named (c ∷ name, tail)
unfolding pop_modifier pop_modifier_trimmed
read_name c name tail (_, h) stops = rw (trim_left-nonblank c (name ++ tail) (ground arith)) (
    ap pop_named
      (span-append is_name_byte (c ∷ name) tail (All-map (c ∷ name) (λ d p. ground arith) h) stops))

Stops-raw_text : (r : ℕ) (raw rest : Bytes) → Stops is_name_byte (raw_text (r ∷ raw) ++ rest)
unfolding raw_text
Stops-raw_text r raw rest = elim (Bool-cases (contains b' ' (r ∷ raw))) [
  | inl spaced ↦ rw spaced refl
  | inr solid ↦ rw solid refl
]

-- One modifier is read back, its dialects aside, in front of the next or of the end.
pub pop_modifier-item_text :
    (m : Modifier) (rest : Bytes)
    → IsPlain m
    → Ends rest
    → pop_modifier (item_text m ++ rest) ≡ popped (clear_dialects m) rest
pop_modifier-item_text _ rest (plain ds [] raw n h) e = absurd (n.0 refl)
pop_modifier-item_text _ [] (plain ds (c ∷ name) [] n h) e =
    read_name c name [] n tt
    ∙ unfold pop_named in ap (λ m. popped m []) (split_name-IsName (c ∷ name) [] n)
pop_modifier-item_text _ (d ∷ s) (plain ds (c ∷ name) [] n h) e =
    read_name c name (d ∷ s) n (ground arith)
    ∙ unfold pop_named in rw e (ap (λ m. popped m (b' ' ∷ s)) (split_name-IsName (c ∷ name) [] n))
pop_modifier-item_text _ rest (plain ds (c ∷ name) (r ∷ raw) n h) e = rw append_assoc (
    read_name c name _ n (Stops-raw_text r raw rest)
    ∙ pop_raw-raw_text (c ∷ name) r raw rest h e
    ∙ ap (λ m. popped m rest) (split_name-IsName (c ∷ name) (r ∷ raw) n))

pub write_buf-item_text :
    (m : Modifier) (buf : Bytes)
    → IsPlain m
    → write_buf m buf ≡ buf ++ (separator buf ++ item_text m)
unfolding write_buf
write_buf-item_text _ buf (plain ds [] raw n h) = absurd (n.0 refl)
write_buf-item_text _ buf (plain ds (c ∷ name) [] n h) = refl
write_buf-item_text _ buf (plain ds (c ∷ name) (r ∷ raw) n h) = refl

-- A buffer after which the next modifier is set off by a space.
abbrev pub IsOpen : Bytes → Type 0
IsOpen buf = (2 ≤ length buf) × (ends_in_space buf ≡ false)

pub separator-IsOpen : (buf : Bytes) → IsOpen buf → separator buf ≡ b' ' ∷ []
unfolding separator
separator-IsOpen buf (long, solid) = rw solid (ground arith)

ends_in_space-append :
    (a : Bytes) (c : ℕ) (s : Bytes) → ends_in_space (a ++ c ∷ s) ≡ ends_in_space (c ∷ s)
unfolding ends_in_space
ends_in_space-append [] c s = refl
ends_in_space-append (d ∷ []) c s = refl
ends_in_space-append (d ∷ e ∷ a) c s = ends_in_space-append (e ∷ a) c s

ends_in_space-solid : (s : Bytes) → contains b' ' s ≡ false → ends_in_space s ≡ false
unfolding ends_in_space contains
ends_in_space-solid [] h = refl
ends_in_space-solid (c ∷ []) h = ground arith
ends_in_space-solid (c ∷ d ∷ s) h = ends_in_space-solid (d ∷ s) (ground arith)

contains-IsName :
    (name : Bytes) → All (λ c. is_plain_byte c ≡ true) name → contains b' ' name ≡ false
unfolding contains
contains-IsName [] h = refl
contains-IsName (c ∷ s) (p, h) = ground (arith, contains-IsName s h)

ends_in_space-raw_text : (raw : Bytes) → ends_in_space (raw_text raw) ≡ false
unfolding raw_text ends_in_space
ends_in_space-raw_text raw = elim (Bool-cases (contains b' ' raw)) [
  | inl spaced ↦ rw spaced (ends_in_space-append (codes "={" ++ raw) b'}' [])
  | inr solid ↦ rw solid (ends_in_space-solid (b'=' ∷ raw) (unfold contains in rw solid))
]

pub item_text-solid : {m : Modifier} → IsPlain m → ends_in_space (item_text m) ≡ false
item_text-solid (plain ds name [] n h) = ends_in_space-solid name (contains-IsName name n.1)
item_text-solid (plain ds name (r ∷ raw) n h) =
    let (t, e) = raw_text-equals r raw in
    rw e (ends_in_space-append name b'=' t ∙ rw (← e) (ends_in_space-raw_text (r ∷ raw)))

pub item_text-nonempty : {m : Modifier} → IsPlain m → 1 ≤ length (item_text m)
item_text-nonempty (plain ds [] raw n h) = absurd (n.0 refl)
item_text-nonempty (plain ds (c ∷ name) [] n h) = omega arith
item_text-nonempty (plain ds (c ∷ name) (r ∷ raw) n h) = omega arith

pub IsOpen-append :
    (buf : Bytes) {m : Modifier} → IsPlain m → IsOpen buf → IsOpen (buf ++ b' ' ∷ item_text m)
IsOpen-append buf {m} p (long, solid) = (
  omega (arith, length-append buf (b' ' ∷ item_text m)),
  ends_in_space-append buf b' ' (item_text m)
      ∙ solid_item (item_text m) (item_text-nonempty p) (item_text-solid p),
)
  where
    solid_item :
        (s : Bytes) → 1 ≤ length s → ends_in_space s ≡ false → ends_in_space (b' ' ∷ s) ≡ false
    solid_item [] le h = absurd (omega arith)
    solid_item (c ∷ s) le h = ends_in_space-append (b' ' ∷ []) c s ∙ h
