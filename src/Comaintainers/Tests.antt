-- ===== src/Comaintainers/Tests.antt =====
-- The co-maintainers of the sample database.
use aurweb.Prelude.{◌≡◌, refl, arith, Distinct, order_by, [], ◌∷◌, delete_where}
use aurweb.Samples.{db, foo, comaintainer}
use aurweb.Comaintainers.{
  of_base, in_line, same_row, rotate_comaintainers, remove_comaintainer, remove_comaintainers,
  add_comaintainer, latest_priority, is_named,
}
use aurweb.Comaintainers.Rotation.{
  number, uid_of, rotate_comaintainers-in_line, rotate_comaintainers-of_other,
}
use aurweb.Comaintainers.Changes.{
  remove_comaintainers-in_line, remove_comaintainer-in_line, remove_comaintainer-first,
  add_comaintainer-in_line,
}

distinct : Distinct uid_of (of_base 10 db.comaintainers)
distinct = ((ground arith, tt), (tt, tt))

sorted : in_line 10 db.comaintainers ≡ comaintainer 2 4 ∷ comaintainer 3 5 ∷ []
unfolding order_by
sorted = refl

rotate_comaintainers-in_line_example :
    in_line 10 (rotate_comaintainers 10 db).comaintainers ≡ number 1 (in_line 10 db.comaintainers)
rotate_comaintainers-in_line_example = rotate_comaintainers-in_line 10 db distinct

rotate_comaintainers-of_other_example :
    of_base 20 (rotate_comaintainers 10 db).comaintainers ≡ of_base 20 db.comaintainers
rotate_comaintainers-of_other_example = rotate_comaintainers-of_other 10 20 db refl

remove_comaintainers-in_line_example :
    in_line 10 (remove_comaintainers 10 ("bob" ∷ []) db).comaintainers
    ≡ number 1 (
        delete_where (λ c. is_named ("bob" ∷ []) db.users c.users_id) (in_line 10 db.comaintainers))
remove_comaintainers-in_line_example = remove_comaintainers-in_line 10 ("bob" ∷ []) db distinct

remove_comaintainer-in_line_example :
    in_line 10 (remove_comaintainer (comaintainer 3 5) db).1.comaintainers
    ≡ delete_where (same_row (comaintainer 3 5)) (number 1 (in_line 10 db.comaintainers))
remove_comaintainer-in_line_example = remove_comaintainer-in_line (comaintainer 3 5) db distinct

remove_comaintainer-first_example :
    in_line 10 (remove_comaintainer (comaintainer 2 4) db).1.comaintainers ≡ comaintainer 3 2 ∷ []
remove_comaintainer-first_example =
    remove_comaintainer-first (comaintainer 2 4) (comaintainer 3 5 ∷ []) db distinct sorted

add_comaintainer-in_line_example :
    in_line 10 (add_comaintainer foo 4 db).1.comaintainers
    ≡ comaintainer 2 4 ∷ comaintainer 3 5 ∷ comaintainer 4 6 ∷ []
unfolding add_comaintainer order_by latest_priority
add_comaintainer-in_line_example = add_comaintainer-in_line foo 4 db
