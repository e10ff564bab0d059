-- ===== src/Http/ConnId.antt =====
-- The id of an app's connection, `fmt.Sprintf("%s-%d", hello.ClientId, n)` of
-- pi-remote-coordinator/internal/http/client_ws.go, and why two numbers never make the same id.
use Prim.Native.Char.{Char, char, code, IsScalar}
use Prim.Native.String.{◌++◌ as str_append}
use Prim.Native.String.append as Append
use pi_remote.Prelude.{
  ℕ, zero, suc, ◌+◌, ◌-◌, ◌*◌, ◌/◌, ◌%◌, ◌≤◌, ◌<◌, ◌≡◌, refl, sym, ap, ◌∙◌, inl, inr, String, List,
  [], ◌∷◌, ◌++◌, arith, ltb, ltb→lt, ltb-false, if◌then◌else◌, All, Bool-cases,
}

pub digit-IsScalar : (d : ℕ) → IsScalar (b'0' + d % 10)
digit-IsScalar d = ground arith

digit : ℕ → Char
digit d = char (b'0' + d % 10) (digit-IsScalar d)

-- The decimal form of a number, in front of a text.
decimal_go : ℕ → ℕ → String → String
unfolding digit
decimal_go zero n acc = acc
decimal_go (suc f) n acc =
    let acc' = String.◌∷◌ (digit n) acc in
    let rest = decimal_go f (n / 10) acc' in if ltb n 10 then acc' else rest

unfoldable pub conn_id : String → ℕ → String
unfolding decimal_go
conn_id client_id n = str_append client_id (str_append "-" (decimal_go (suc n) n ""))

codes : String → List ℕ
codes String.[] = []
codes (String.◌∷◌ c s) = code c ∷ codes s

codes-append : (s t : String) → codes (str_append s t) ≡ codes s ++ codes t
unfolding codes
codes-append String.[] t = ap codes (Append.nil t)
codes-append (String.◌∷◌ c s) t =
    ap codes (Append.cons c s t) ∙ ap (◌∷◌ (code c)) (codes-append s t)

read_digits : ℕ → List ℕ → ℕ
read_digits v [] = v
read_digits v (c ∷ cs) = read_digits (v * 10 + (c - b'0')) cs

-- A number is read back from its decimal form.
read_digits-decimal_go :
    (f n : ℕ) (acc : String)
    → n < f
    → read_digits 0 (codes (decimal_go f n acc)) ≡ read_digits n (codes acc)
unfolding decimal_go digit read_digits codes
read_digits-decimal_go zero n acc h = elim h [ ]
read_digits-decimal_go (suc f) n acc h = elim (Bool-cases (ltb n 10)) [
  | inl small ↦ rw small (ap (λ v. read_digits v (codes acc)) (omega (arith, ltb→lt _ _ small)))
  | inr large ↦
      let ih =
        read_digits-decimal_go f (n / 10) (String.◌∷◌ (digit n) acc)
          (omega (arith, ltb-false _ _ large)) in
      rw large (ih ∙ ap (λ v. read_digits v (codes acc)) (omega arith))
]

AreDigits : List ℕ → Type 0
AreDigits = All (λ c. b'0' ≤ c)

decimal_go-AreDigits :
    (f n : ℕ) (acc : String) → AreDigits (codes acc) → AreDigits (codes (decimal_go f n acc))
unfolding decimal_go digit codes AreDigits
decimal_go-AreDigits zero n acc h = h
decimal_go-AreDigits (suc f) n acc h = elim (Bool-cases (ltb n 10)) [
  | inl small ↦ rw small (omega arith, h)
  | inr large ↦
      rw large (decimal_go-AreDigits f (n / 10) (String.◌∷◌ (digit n) acc) (omega arith, h))
]

-- No digit is a dash.
no_dash : (xs v : List ℕ) → AreDigits (xs ++ b'-' ∷ v) → ⊥
unfolding AreDigits
no_dash [] v h = omega arith
no_dash (x ∷ xs) v h = no_dash xs v h.1

-- What stands behind the last dash of a text is determined.
behind_dash :
    (xs ys u v : List ℕ) → AreDigits u → AreDigits v → xs ++ b'-' ∷ u ≡ ys ++ b'-' ∷ v → u ≡ v
unfolding AreDigits
behind_dash [] [] u v hu hv e = cc
behind_dash [] (y ∷ ys) u v hu hv e =
    let tail_eq : u ≡ ys ++ b'-' ∷ v = cc in absurd (no_dash ys v (rw tail_eq at hu))
behind_dash (x ∷ xs) [] u v hu hv e =
    let tail_eq : v ≡ xs ++ b'-' ∷ u = cc in absurd (no_dash xs u (rw tail_eq at hv))
behind_dash (x ∷ xs) (y ∷ ys) u v hu hv e = behind_dash xs ys u v hu hv (cc)

codes-conn_id :
    (client_id : String) (n : ℕ)
    → codes (conn_id client_id n) ≡ codes client_id ++ b'-' ∷ codes (decimal_go (suc n) n "")
unfolding conn_id codes
codes-conn_id client_id n = codes-append client_id _ ∙ ap (codes client_id ++◌) (codes-append "-" _)

pub conn_id-injective : (c d : String) (n m : ℕ) → conn_id c n ≡ conn_id d m → n ≡ m
unfolding AreDigits codes read_digits
conn_id-injective c d n m e =
    let texts : codes c ++ b'-' ∷ codes (decimal_go (suc n) n "")
        ≡ codes d ++ b'-' ∷ codes (decimal_go (suc m) m "") =
      sym (codes-conn_id c n) ∙ (ap codes e ∙ codes-conn_id d m) in
    let same =
      behind_dash (codes c) (codes d) _ _ (decimal_go-AreDigits (suc n) n "" tt)
        (decimal_go-AreDigits (suc m) m "" tt) texts in
    sym (read_digits-decimal_go (suc n) n "" (omega arith))
    ∙ (ap (read_digits 0) same ∙ read_digits-decimal_go (suc m) m "" (omega arith))

conn_id_test : conn_id "phone-1" 205 ≡ "phone-1-205"
unfolding conn_id
conn_id_test = refl
