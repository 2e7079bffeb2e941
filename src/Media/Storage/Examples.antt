-- ===== src/Media/Storage/Examples.antt =====
-- The keys of two versions of a recording.
use sintade.Prelude.{ℕ, ◌≡◌, refl, ◌∷◌}
use sintade.Prelude.Text.{Text, codes, decimal, trim}
use sintade.Media.Storage.{edit_base, preview_content_type}

abbrev shown : ℕ → Text
shown n = b'i' ∷ decimal n

-- Version 1 is not deleted with version 10.
base_of_ten : edit_base shown 7 1 10 ≡ codes "ws/i7/rec/i1/edits/10"
unfolding edit_base decimal
base_of_ten = refl

chrome_h264 :
    preview_content_type (codes " Video/WebM;codecs=H264 ") ≡ codes "Video/WebM;codecs=H264"
unfolding preview_content_type trim
chrome_h264 = refl

vp9 : preview_content_type (codes "video/webm;codecs=vp9") ≡ codes "video/webm"
unfolding preview_content_type trim
vp9 = refl
