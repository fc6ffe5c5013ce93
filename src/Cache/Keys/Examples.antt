-- ===== src/Cache/Keys/Examples.antt =====
-- Keys, materials and times to live at concrete inputs.
use scalable_content_platfor.Base.{ℕ, ◌≡◌, refl, Option, some}
use scalable_content_platfor.Base.Int.{negsuc}
use scalable_content_platfor.Text.{Text, codes, decimal}
use scalable_content_platfor.Cache.Keys.{article_key, lock_key, list_key, jittered_ttl}
use scalable_content_platfor.Cache.Keys.Windows.{list_key_inj}

-- A digest that keeps everything.
abbrev keep : Text → Text
keep material = material

list_key-page :
    list_key keep 3 (some 7) 20 (some (1000, 42)) ≡ codes "articles:list:a7:g3:l20:1000:42"
unfolding list_key decimal
list_key-page = refl

lock_key-article : lock_key (article_key 42) ≡ codes "lock:article:42"
unfolding lock_key article_key decimal
lock_key-article = refl

jittered_ttl-off : jittered_ttl 300 (negsuc 0) 7 ≡ 300
unfolding jittered_ttl
jittered_ttl-off = refl

abbrev position : Option (ℕ × ℕ)
position = some (1000, 42)

abbrev twenty : ℕ
twenty = 20

abbrev author : Option ℕ
author = some 7

list_key_inj_example :
    (twenty ≡ twenty) × (author ≡ author) × (twenty ≡ twenty) × (position ≡ position)
list_key_inj_example = list_key_inj keep 20 20 author author 20 20 position position (λ e. e) refl
