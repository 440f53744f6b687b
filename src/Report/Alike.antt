-- ===== src/Report/Alike.antt =====
-- Tables of lists that differ in no more than rates and time stamps.
use str_manager.Prelude.{
  ℕ, ◌≡◌, refl, ap, sym, ◌∙◌, true, false, Option, none, some, [], ◌∷◌, arith,
}
use str_manager.Int.{ℤ, pos, ◌==◌}
use str_manager.System.{System, SockAddr}
use str_manager.Table
use str_manager.Table.{Table, find?, contains}
use str_manager.Table.Keys.{int_key}
use str_manager.Table.Totals.{Distinct, total}
use str_manager.Udp.{addr_key}
use str_manager.StreamList.{StreamList}
use str_manager.Streams.{Streams}
use str_manager.Streams.Views.{list_at, id_at, targets, route}
use str_manager.Streams.Routing.{IsLinked, comes_from, source_addr}
use str_manager.Worker.Valid.{listens_at}
use str_manager.Manager.Book.{summary}

abbrev pub Lists : Type 0
Lists = Table ℤ (Option StreamList)

abbrev pub Alike : Lists → Lists → Type 0
Alike [] [] = Unit {0}
Alike [] (e ∷ t) = true ≡ false
Alike (e ∷ t) [] = true ≡ false
Alike (e ∷ t) (e' ∷ t') = (e'.0 ≡ e.0) × (summary e'.1 ≡ summary e.1) × Alike t t'

-- What `find?` gives, in outline.
abbrev found : Option (Option StreamList) → Option StreamList
found none = none
found (some v) = v

pub find?-Alike :
    (t t' : Lists) (j : ℤ) → Alike t t' → summary (found (find? j t')) ≡ summary (found (find? j t))
unfolding find?
find?-Alike [] [] j a = refl
find?-Alike [] (e ∷ t) j a = cc
find?-Alike (e ∷ t) [] j a = cc
find?-Alike (e ∷ t) (e' ∷ t') j (key, value, rest) =
    ground (arith, key, value, find?-Alike t t' j rest)

contains-Alike : (t t' : Lists) (j : ℤ) → Alike t t' → contains j t' ≡ contains j t
unfolding contains
contains-Alike [] [] j a = refl
contains-Alike [] (e ∷ t) j a = cc
contains-Alike (e ∷ t) [] j a = cc
contains-Alike (e ∷ t) (e' ∷ t') j (key, value, rest) =
    ground (arith, key, contains-Alike t t' j rest)

pub Distinct-Alike : (t t' : Lists) → Alike t t' → Distinct t → Distinct t'
Distinct-Alike [] [] a d = tt
Distinct-Alike [] (e ∷ t) a d = cc
Distinct-Alike (e ∷ t) [] a d = cc
Distinct-Alike (e ∷ t) (e' ∷ t') (key, value, rest) (new, d) =
    (ap (λ k. contains k t') key ∙ contains-Alike t t' e.0 rest ∙ new, Distinct-Alike t t' rest d)

-- Whether a list counts is seen from its outline.
listens-summary :
    {S : Type 0} (sys : System S) (q : ℕ) (v v' : Option StreamList)
    → summary v' ≡ summary v
    → listens_at sys q v' ≡ listens_at sys q v
listens-summary sys q none none h = refl
listens-summary sys q none (some l) h = cc
listens-summary sys q (some l) none h = cc
listens-summary sys q (some l) (some l') h = ground (arith, h)

pub total-Alike :
    {S : Type 0} (sys : System S) (q : ℕ) (t t' : Lists)
    → Alike t t'
    → total (listens_at sys q) t' ≡ total (listens_at sys q) t
unfolding total
total-Alike sys q [] [] a = refl
total-Alike sys q [] (e ∷ t) a = cc
total-Alike sys q (e ∷ t) [] a = cc
total-Alike sys q (e ∷ t) (e' ∷ t') (key, value, rest) =
    omega (arith, listens-summary sys q e.1 e'.1 value, total-Alike sys q t t' rest)

source_addr-summary :
    (v v' : Option StreamList) → summary v' ≡ summary v → source_addr v' ≡ source_addr v
source_addr-summary none none h = refl
source_addr-summary none (some l) h = cc
source_addr-summary (some l) none h = cc
source_addr-summary (some l) (some l') h = ground (arith, h)

targets-summary : (v v' : Option StreamList) → summary v' ≡ summary v → targets v' ≡ targets v
targets-summary none none h = refl
targets-summary none (some l) h = cc
targets-summary (some l) none h = cc
targets-summary (some l) (some l') h = ground (arith, h)

module _ (st st' : Streams) (alike : Alike st.management st'.management)
    (same : st'.forwarding ≡ st.forwarding) where
  pub list_at-Alike : (j : ℤ) → summary (list_at st' j) ≡ summary (list_at st j)
  unfolding Table.value
  list_at-Alike j = find?-Alike st.management st'.management j alike

  ids : (a : SockAddr) → id_at st' a ≡ id_at st a
  ids a = ap (λ t. Table.value (pos 0) a t) same

  pub route-Alike : (a : SockAddr) → route st' a ≡ route st a
  unfolding route
  route-Alike a =
      ap (λ id. targets (list_at st' id)) (ids a) ∙ targets-summary _ _ (list_at-Alike (id_at st a))

  pub IsLinked-Alike : IsLinked st → IsLinked st'
  IsLinked-Alike inv = record {
    no_zero = ground (arith, list_at-Alike (pos 0), inv.no_zero);
    sourced = λ j. ground (arith, list_at-Alike j, inv.sourced j);
    led = λ j a e. ids a ∙ inv.led j a (sym (source_addr-summary _ _ (list_at-Alike j)) ∙ e);
    known = λ a h.
        ap (λ id. comes_from (source_addr (list_at st' id)) a) (ids a)
        ∙ ap (λ b. comes_from b a) (source_addr-summary _ _ (list_at-Alike (id_at st a)))
        ∙ inv.known a (sym (ap (λ id. id == pos 0) (ids a)) ∙ h);
  }
