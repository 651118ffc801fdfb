-- ===== src/Clients/Ids.antt =====
-- The ids of the clients of a list: no two have the same, where it is not empty.
use tcp_udp_client_server.Base.{
  ◌≡◌, ◌≢◌, ◌+◌, ◌≤◌, ℕ, inl, inr, refl, Bool, true, false, none, [], ◌∷◌, arith, ◌==◌, Bool-cases,
  sym, subst, ap, ◌∙◌,
}
use tcp_udp_client_server.Clients.{Client, has_id}
use tcp_udp_client_server.CString.{Bytes, str_eq, eq_of_str_eq}
use tcp_udp_client_server.DList.{Ptr}
use tcp_udp_client_server.DList.Search.{first_body}
use tcp_udp_client_server.DList.Shape.{Cells}
use tcp_udp_client_server.DList.Unlink.{erase}
use tcp_udp_client_server.DList.Update.{replace}

abbrev pub one_if : Bool → ℕ
one_if true = 1
one_if false = 0

-- The count of the clients with an id.
unfoldable pub holders : Bytes → Cells Client → ℕ
holders id [] = 0
holders id ((p, c) ∷ xs) = one_if (has_id id c) + holders id xs

unfoldable pub AreDistinct : Cells Client → Type 0
AreDistinct xs = (id : Bytes) → id ≢ [] → holders id xs ≤ 1

pub nil-AreDistinct : AreDistinct []
unfolding AreDistinct holders
nil-AreDistinct id ne = omega arith

one_if_le : (b : Bool) → one_if b + 0 ≤ 1
one_if_le true = omega arith
one_if_le false = omega arith

pub single-AreDistinct : (p : Ptr) (c : Client) → AreDistinct ((p, c) ∷ [])
unfolding AreDistinct holders
single-AreDistinct p c id ne = one_if_le (has_id id c)

no_id : (id : Bytes) → id ≢ [] → str_eq [] id ≡ false
no_id id ne = elim (Bool-cases (str_eq [] id)) [
  | inl e ↦ absurd (ne (sym (eq_of_str_eq [] id e)))
  | inr e ↦ e
]

-- A client without an id makes no difference.
pub nameless-AreDistinct :
    (p : Ptr) (c : Client) (xs : Cells Client)
    → c.id ≡ []
    → AreDistinct xs
    → AreDistinct ((p, c) ∷ xs)
unfolding AreDistinct holders
nameless-AreDistinct p c xs e d id ne =
    rw (ap (λ i. str_eq i id) e ∙ no_id id ne) (omega (arith, d id ne))

holders-erase : (id : Bytes) (p : Ptr) (xs : Cells Client) → holders id (erase p xs) ≤ holders id xs
unfolding holders erase
holders-erase id p [] = omega arith
holders-erase id p ((a, c) ∷ xs) = elim (Bool-cases (a == p)) [
  | inl hit ↦ rw hit (omega arith)
  | inr miss ↦ rw miss (omega (arith, holders-erase id p xs))
]

pub erase-AreDistinct : (p : Ptr) (xs : Cells Client) → AreDistinct xs → AreDistinct (erase p xs)
unfolding AreDistinct
erase-AreDistinct p xs d id ne = omega (arith, holders-erase id p xs, d id ne)

holders-replace :
    (id : Bytes) (p : Ptr) (c : Client) (xs : Cells Client)
    → holders id (replace p c xs) ≤ one_if (has_id id c) + holders id xs
unfolding holders replace
holders-replace id p c [] = omega arith
holders-replace id p c ((a, d) ∷ xs) = elim (Bool-cases (a == p)) [
  | inl hit ↦ rw hit (omega arith)
  | inr miss ↦ rw miss (omega (arith, holders-replace id p c xs))
]

holders-none :
    (id : Bytes) (xs : Cells Client) → first_body (has_id id) xs ≡ none → holders id xs ≡ 0
unfolding holders first_body
holders-none id [] f = refl
holders-none id ((a, c) ∷ xs) f = elim (Bool-cases (has_id id c)) [
  | inl hit ↦ absurd (ground arith)
  | inr miss ↦ rw miss (omega (arith, holders-none id xs (ground arith)))
]

-- A client may take an id that no client has.
pub replace-AreDistinct :
    (p : Ptr) (c : Client) (xs : Cells Client)
    → first_body (has_id c.id) xs ≡ none
    → AreDistinct xs
    → AreDistinct (replace p c xs)
unfolding AreDistinct
replace-AreDistinct p c xs free d id ne = elim (Bool-cases (has_id id c)) [
  | inl same ↦
      let none_yet : holders id xs ≡ 0 =
        subst (λ i. holders i xs ≡ 0) (eq_of_str_eq c.id id same) (holders-none c.id xs free) in
      let most : holders id (replace p c xs) ≤ 1 + holders id xs =
        subst (λ b. holders id (replace p c xs) ≤ one_if b + holders id xs) same
          (holders-replace id p c xs) in
      omega arith
  | inr other ↦
      let most : holders id (replace p c xs) ≤ 0 + holders id xs =
        subst (λ b. holders id (replace p c xs) ≤ one_if b + holders id xs) other
          (holders-replace id p c xs) in
      omega (arith, d id ne)
]
