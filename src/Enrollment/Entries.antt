-- ===== src/Enrollment/Entries.antt =====
-- What each call of internal/device/enrollment.go does to the pending entries.
use roblox_mcp_gateway.Prelude.{
  ℕ, ◌<◌, String, ◌≡◌, refl, sym, subst, ◌⊎◌, inl, inr, true, List, [], ◌∷◌, All, some, ok, err,
  string_comparable, ltb, arith, Option-cases, Bool-cases,
}
use roblox_mcp_gateway.Prelude.Map.{lookup, insert, erase, All-lookup, All-insert, All-erase}
use roblox_mcp_gateway.Enrollment.Pairing.{
  Error, not_found, expired, PendingEntry, Pairings, Outcome, evict_expired, live_entry, on_entry,
}

-- Facts of `All` over the entries.
pub All-mono {ℓ κ} :
    {A : Type ℓ} (P Q : A → Type κ) (xs : List A) → ((x : A) → P x → Q x) → All P xs → All Q xs
All-mono P Q [] f h = h
All-mono P Q (x ∷ xs) f h = (f x h.0, All-mono P Q xs f h.1)

pub All-evict :
    (P : String × PendingEntry → Type 0) (now : ℕ) (pending : List (String × PendingEntry))
    → All P pending
    → All P (evict_expired now pending)
unfolding evict_expired
All-evict P now [] h = h
All-evict P now ((key, entry) ∷ pending) h = elim (Bool-cases (ltb now entry.expires_at)) [
  | inl live ↦ rw live (h.0, All-evict P now pending h.1)
  | inr gone ↦ rw gone (All-evict P now pending h.1)
]

-- What a call on one code does to the entries: nothing, a removal, or a change of its entry.
abbrev pub Touches : String → (PendingEntry → PendingEntry) → Pairings → Pairings → Type 0
Touches key change e t =
    (t.pending ≡ e.pending)
    ⊎ (t.pending ≡ erase key e.pending)
    ⊎ ((entry : PendingEntry) × (lookup key e.pending ≡ some entry)
        × (t.pending ≡ insert key (change entry) e.pending))

pub Touches-All :
    (P : String × PendingEntry → Type 0) (key : String) (change : PendingEntry → PendingEntry)
    (e t : Pairings)
    → Touches key change e t
    → ((entry : PendingEntry) → P (key, entry) → P (key, change entry))
    → All P e.pending
    → All P t.pending
Touches-All P key change e t (inl same) keep h = subst (All P) (sym same) h
Touches-All P key change e t (inr (inl gone)) keep h =
    subst (All P) (sym gone) (All-erase P key e.pending h)
Touches-All P key change e t (inr (inr (entry, found, changed))) keep h =
    subst (All P) (sym changed) (
      All-insert P key (change entry) e.pending h
        (keep entry (All-lookup P key entry e.pending h found)))

abbrev pub approve_by : String → PendingEntry → PendingEntry
approve_by user_id entry = record entry {
  approved = true;
  status = "approved";
  approved_by = user_id;
}

abbrev pub deny : PendingEntry → PendingEntry
deny entry = record entry { status = "license_required" }

-- The three answers on a code's entry.
pub live_entry-cases :
    (e : Pairings) (key : String) (now : ℕ)
    → ((x : Error) × (live_entry e key now ≡ (err x, e)))
      ⊎ ((x : Error) × (live_entry e key now ≡ (err x, record e { pending = erase key e.pending })))
      ⊎ ((entry : PendingEntry) × (lookup key e.pending ≡ some entry)
          × (now < entry.expires_at)
          × (live_entry e key now ≡ (ok entry, e)))
unfolding live_entry
live_entry-cases e key now = elim (Option-cases (lookup key e.pending)) [
  | inl n ↦ inl (not_found, ground arith)
  | inr (entry, f) ↦ elim (Bool-cases (ltb now entry.expires_at)) [
    | inl live ↦ inr (inr (entry, f, ground arith, ground arith))
    | inr gone ↦ inr (inl (expired, ground arith))
  ]
]

pub on_entry-Touches :
    {A : Type 0} (e : Pairings) (key : String) (change : PendingEntry → PendingEntry) (now : ℕ)
    (k : Pairings → PendingEntry → Outcome A)
    → ((entry : PendingEntry)
        → lookup key e.pending ≡ some entry
        → Touches key change e (k e entry).1)
    → Touches key change e (on_entry (live_entry e key now) k).1
unfolding on_entry
on_entry-Touches e key change now k touches = elim (live_entry-cases e key now) [
  | inl (x, q) ↦ rw q (inl refl)
  | inr (inl (x, q)) ↦ rw q (inr (inl refl))
  | inr (inr (entry, f, _, q)) ↦ rw q (touches entry f)
]
