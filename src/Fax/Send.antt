-- ===== src/Fax/Send.antt =====
-- The sending loop of `fax_pre` in src/fax_decode.c: where it ends, and where it does not; and what a reload makes
-- of the table of machines.
use vpu.Common.{
  ℕ, zero, suc, ◌+◌, ◌-◌, ◌≤◌, ◌<◌, ◌≡◌, ◌≢◌, refl, ◌∙◌, sym, ap, inl, inr, true, false, List, [],
  ◌∷◌, ◌++◌, arith, length, get_or, set, take, drop, ltb, leb, ◌==◌, if◌then◌else◌, length-set,
  Bool-cases, not_==→ne, ==→eq, lt→not_leb, not_leb→lt, lt→ltb, take_of_length_le, append-nil,
  ne→not_==, eq→==,
}
use mathlib.Core.Path.{subst}
use vpu.Conf.{Str, str_eq, str_eq_refl, str_eq→eq, FaxInfo, zero_fax, Globals}
use vpu.Fax.{
  Try, Sending, going_on, overread, ended, attempt, next_fax, before_try, send_loop, has_moved,
  reload_entry, over,
}

-- No other thread touches the variables between two attempts.
abbrev pub Quiet : List Try → Type 0
Quiet [] = Unit {0}
Quiet (t ∷ ts) = ((g : Globals) → t.others g ≡ g) × Quiet ts

-- The loop is over, at a machine of the table, and has kept the number of machines.
abbrev pub EndsAt : ℕ → Sending → Type 0
EndsAt num going_on = ⊥
EndsAt num overread = ⊥
EndsAt num (ended b m g) = (m < num) × (g.fax_num ≡ num) × (length g.fax_infos ≡ 32)

-- how many attempts are left before `m` comes round to `tmp_m`
abbrev left : ℕ → ℕ → ℕ → ℕ
left num tmp_m m = if ltb m tmp_m then tmp_m - m else num + tmp_m - m

quiet_try :
    (t : Try) (g : Globals)
    → ((x : Globals) → t.others x ≡ x)
    → g.svm_fax_reload ≢ 1
    → before_try t g ≡ g
unfolding before_try
quiet_try t g q calm =
    let e : (g.svm_fax_reload == 1) ≡ false = ne→not_== _ _ calm in rw (q g, e) refl

pub send_loop-EndsAt :
    (thread : ℕ) (ts : List Try) (tmp_m m : ℕ) (g : Globals)
    → Quiet ts
    → g.svm_fax_reload ≢ 1
    → length g.fax_infos ≡ 32
    → g.fax_num ≤ 32
    → m < g.fax_num
    → tmp_m < g.fax_num
    → left g.fax_num tmp_m m ≤ length ts
    → EndsAt g.fax_num (send_loop thread ts tmp_m m g)
unfolding send_loop next_fax
send_loop-EndsAt thread [] tmp_m m g q calm size few h k l = absurd (ground arith)
send_loop-EndsAt thread (t ∷ ts) tmp_m m g q calm size few h k l =
    let r = attempt thread t (get_or g.fax_infos m zero_fax) in
    let m' = next_fax g.fax_num m in
    let g2 : Globals = record g { fax_infos = set g.fax_infos m r.1 } in
    let size2 = length-set g.fax_infos m r.1 ∙ size in
    let inside : leb (length g.fax_infos) m ≡ false = lt→not_leb _ _ (omega arith) in
    rw (quiet_try t g q.0 calm, inside)
      (elim (Bool-cases r.0) [
        | inl sent ↦ rw sent (h, refl, size2)
        | inr not_sent ↦ rw not_sent (elim (Bool-cases (m' == tmp_m)) [
          | inl round ↦ rw round (ground arith, refl, size2)
          | inr on ↦ rw on (
              send_loop-EndsAt thread ts tmp_m m' g2 q.1 calm size2 few (ground arith) k
                (ground (arith, not_==→ne _ _ on)))
        ])
      ])

set_self :
    (fs : List FaxInfo) (m i : ℕ)
    → get_or (set fs m (get_or fs m zero_fax)) i zero_fax ≡ get_or fs i zero_fax
set_self [] m i = refl
set_self (f ∷ fs) zero zero = refl
set_self (f ∷ fs) zero (suc i) = refl
set_self (f ∷ fs) (suc m) zero = refl
set_self (f ∷ fs) (suc m) (suc i) = set_self fs m i

attempt_off : (thread : ℕ) (t : Try) (f : FaxInfo) → f.flag ≢ 1 → attempt thread t f ≡ (false, f)
unfolding attempt
attempt_off thread t f off = let e : (f.flag == 1) ≡ false = ne→not_== _ _ off in rw e refl

-- With no machine in the table the loop never sends, never comes round to where it began, and so leaves the table:
-- it is going on after every attempt up to the 32nd and reads behind the table at the next.
pub send_loop-overread :
    (thread : ℕ) (ts : List Try) (m : ℕ) (g : Globals)
    → Quiet ts
    → g.svm_fax_reload ≢ 1
    → ((i : ℕ) → (get_or g.fax_infos i zero_fax).flag ≢ 1)
    → g.fax_num ≡ 0
    → m ≤ length g.fax_infos
    → length g.fax_infos < m + length ts
    → send_loop thread ts 0 m g ≡ overread
unfolding send_loop next_fax
send_loop-overread thread [] m g q calm off none_there inside l = absurd (omega arith)
send_loop-overread thread (t ∷ ts) m g q calm off none_there inside l =
    let f = get_or g.fax_infos m zero_fax in
    let g2 : Globals = record g { fax_infos = set g.fax_infos m f } in
    elim (Bool-cases (leb (length g.fax_infos) m)) [
      | inl past ↦ rw (quiet_try t g q.0 calm, past) refl
      | inr here ↦
          let again : (m + 1 == g.fax_num) ≡ false = ne→not_== _ _ (omega arith) in
          let away : (m + 1 == 0) ≡ false = ne→not_== _ _ (omega arith) in
          rw (quiet_try t g q.0 calm, here, attempt_off thread t f (off m), again, away)
            (send_loop-overread thread ts (m + 1) g2 q.1 calm
              (λ i. subst (λ x. x.flag ≢ 1) (sym (set_self g.fax_infos m i)) (off i)) none_there
              (omega (arith, length-set g.fax_infos m f, not_leb→lt _ _ here))
              (omega (arith, length-set g.fax_infos m f)))
    ]

drop_all : (n : ℕ) (xs : Str) → length xs ≤ n → drop n xs ≡ []
drop_all zero [] h = refl
drop_all zero (x ∷ xs) h = absurd (omega arith)
drop_all (suc n) [] h = refl
drop_all (suc n) (x ∷ xs) h = drop_all n xs (omega arith)

-- A machine of both tables whose new address is not shorter than the old one has the new address and the new port
-- after the reload, whether it has moved or not.
pub reload_entry-installs :
    (num r_num i : ℕ) (f r : FaxInfo)
    → i < num
    → i < r_num
    → length f.ip ≤ length r.ip
    → ((reload_entry num r_num i f r).ip ≡ r.ip) × ((reload_entry num r_num i f r).port ≡ r.port)
unfolding reload_entry has_moved
reload_entry-installs num r_num i f r h k short =
    let all : take (length r.ip) f.ip ≡ f.ip = take_of_length_le (length r.ip) f.ip short in
    let new : over r.ip f.ip ≡ r.ip =
      ap (λ l. r.ip ++ l) (drop_all (length r.ip) f.ip short) ∙ append-nil r.ip in
    rw (lt→ltb i num h, lt→ltb i r_num k, all)
      (elim (Bool-cases (str_eq f.ip r.ip)) [
        | inr other ↦ rw other (new, refl)
        | inl same ↦ rw same (elim (Bool-cases (f.port == r.port)) [
          | inl here ↦ rw here (str_eq→eq _ _ same, ==→eq _ _ here)
          | inr there ↦ rw there (new, refl)
        ])
      ])

-- A machine whose new address is the beginning of the old one, at the same port, is left under the old address.
pub reload_entry_misses :
    (num r_num i : ℕ) (f r : FaxInfo)
    → i < num
    → i < r_num
    → take (length r.ip) f.ip ≡ r.ip
    → f.port ≡ r.port
    → reload_entry num r_num i f r ≡ f
unfolding reload_entry has_moved
reload_entry_misses num r_num i f r h k front port =
    let e : (f.port == r.port) ≡ true = eq→== _ _ port in
    rw (lt→ltb i num h, lt→ltb i r_num k, front, str_eq_refl r.ip, e) refl
