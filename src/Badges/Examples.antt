-- ===== src/Badges/Examples.antt =====
-- A remote title, and the letters of a few badges.
use shells.Prelude.{◌≡◌, refl, some, [], codes}
use shells.Backends.Text.{pos}
use shells.Badges.{
  is_user_char, is_host_char, get_backend_badge, get_remote_badge_from_title, host_part,
}
use shells.Badges.Titles.{remote_title, get_remote_badge_from_title_lem}

ip_part : host_part (codes "10.0.0.42") ≡ codes "42"
unfolding host_part
ip_part = refl

name_part : host_part (codes "db.example.org") ≡ codes "db"
unfolding host_part
name_part = refl

get_remote_badge_from_title_lem_example :
    get_remote_badge_from_title (λ s. s) (remote_title (some (codes "me")) (codes "db.a"))
    ≡ some (
        get_backend_badge
          (λ s. s)
          (record { user = some (codes "me"); hostname = []; host = codes "db.a"; port = pos 22 }))
unfolding is_user_char is_host_char
get_remote_badge_from_title_lem_example =
    get_remote_badge_from_title_lem (λ s. s) (some (codes "me")) (codes "db.a")
      (refl, (refl, (refl, tt))) refl (refl, (refl, (refl, (refl, tt))))
