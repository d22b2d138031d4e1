-- ===== src/Sql/Params/Retried.antt =====
-- What the second attempt of a database call of src/sql.tpp binds.
use apiserver_asymetric_encr.Base.{All, ◌≡◌, refl, ap, ◌↔◌, true, false, List, [], ◌∷◌}
use apiserver_asymetric_encr.Text.{Bytes}
use apiserver_asymetric_encr.Sql.Params.{
  string_value, int_value, long_value, size_value, double_value, date_value, other_value, Arg,
  plain, optional, Owned, owned_string, Driver, convert_base_value, convert_for_binding, forwarded,
  make_binding_tuple, execute_with, with_args,
}
use apiserver_asymetric_encr.Sql.Calls.{Odbc}

module _ {F Date : Type 0} (format_date : Date → Bytes) (moved : Bytes → Bytes) where
  -- An argument that is not changed by being moved from.
  abbrev pub IsKept : Arg F Date → Type 0
  IsKept (plain (string_value true s)) = moved s ≡ s
  IsKept (plain (string_value false s)) = Unit
  IsKept (plain (int_value n)) = Unit
  IsKept (plain (long_value n)) = Unit
  IsKept (plain (size_value n)) = Unit
  IsKept (plain (double_value x)) = Unit
  IsKept (plain (date_value d)) = Unit
  IsKept (plain other_value) = Unit
  IsKept (optional v) = Unit

  owned_string_inj : {s u : Bytes} → Path (Owned F) (owned_string s) (owned_string u) → s ≡ u
  owned_string_inj e = cc

  convert-forwarded :
      (a : Arg F Date)
      → (convert_for_binding format_date moved (forwarded format_date moved a)
          ≡ convert_for_binding format_date moved a)
        ↔ IsKept a
  unfolding convert_for_binding convert_base_value forwarded
  convert-forwarded (plain (string_value true s)) = (owned_string_inj, λ e. ap owned_string e)
  convert-forwarded (plain (string_value false s)) = (λ e. tt, λ k. refl)
  convert-forwarded (plain (int_value n)) = (λ e. tt, λ k. refl)
  convert-forwarded (plain (long_value n)) = (λ e. tt, λ k. refl)
  convert-forwarded (plain (size_value n)) = (λ e. tt, λ k. refl)
  convert-forwarded (plain (double_value x)) = (λ e. tt, λ k. refl)
  convert-forwarded (plain (date_value d)) = (λ e. tt, λ k. refl)
  convert-forwarded (plain other_value) = (λ e. tt, λ k. refl)
  convert-forwarded (optional v) = (λ e. tt, λ k. refl)

  tuple_again :
      (args : List (Arg F Date))
      → ((make_binding_tuple format_date moved (make_binding_tuple format_date moved args).0).1
          ≡ (make_binding_tuple format_date moved args).1)
        ↔ All IsKept args
  unfolding make_binding_tuple
  tuple_again [] = (λ e. tt, λ k. refl)
  tuple_again (a ∷ args) =
      let (here, back) = convert-forwarded a in
      let (there, back') = tuple_again args in
      (λ e. (here (head_eq e), there (tail_eq e)), λ (k, ks) i. back k i ∷ back' ks i)
    where
      head_eq : {x y : Owned F} {xs ys : List (Owned F)} → x ∷ xs ≡ y ∷ ys → x ≡ y
      head_eq e = cc

      tail_eq : {x y : Owned F} {xs ys : List (Owned F)} → x ∷ xs ≡ y ∷ ys → xs ≡ ys
      tail_eq e = cc

module _ {F Date D S A DB : Type 0} (format_date : Date → Bytes) (moved : Bytes → Bytes)
    (odbc : Odbc D S A DB) (driver : Driver F S DB) where
  abbrev pub whole : Odbc D S A (List (Arg F Date) × DB)
  whole = with_args format_date moved odbc driver

  -- Whatever the driver does, the attempt behind one that came to bind its parameters binds the
  -- same values exactly when no argument is a string that came as an rvalue and holds something
  -- else once it is moved from.
  pub execute-again :
      (stmt : S) (args : List (Arg F Date)) (db : DB)
      → let ((args', db'), outcome) = whole.execute stmt (args, db) in
        ((make_binding_tuple format_date moved args').1
          ≡ (make_binding_tuple format_date moved args).1)
        ↔ All (IsKept format_date moved) args
  unfolding execute_with
  execute-again stmt args db = tuple_again format_date moved args
