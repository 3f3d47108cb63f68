-- ===== src/Logger/Tests.antt =====
-- A signature as the compiler writes it.
use iql.Base.{◌≡◌, refl, ◌++◌, ◌∷◌}
use iql.Text.{txt}
use iql.Logger.{format_class_name}
use iql.Logger.Name.{format_class_name_lem}

format_class_name_lem_example :
    format_class_name ((txt "void" ++ b' ' ∷ txt "Qt::id") ++ b'(' ∷ txt "int)") ≡ txt "Qt::id"
unfolding txt
format_class_name_lem_example =
    format_class_name_lem (txt "void") (txt "Qt::id") (txt "int)")
      (refl, (refl, (refl, (refl, tt)))) (refl, (refl, (refl, (refl, (refl, (refl, tt))))))
      (refl, (refl, (refl, (refl, (refl, (refl, tt))))))
