-- ===== src/Templates/Tests.antt =====
-- A template that is processed into a file that holds more already.
use docker_local.Common.{◌≡◌, refl, true, false, none, some, List, [], ◌∷◌}
use docker_local.Common.Text.{Text, codes}
use docker_local.Disk.{Disk, or_empty, overwrite}
use docker_local.Volumes.Clean.{there}
use docker_local.Templates.{
  TemplateWorld, process_template_file, output, process_template_file-overwrites,
}

abbrev first_value : List (Text × Text) → Text
first_value [] = []
first_value ((name, value) ∷ values) = value

abbrev templates : TemplateWorld
templates = record {
  parse = λ file. some (λ values. (first_value values, true));
  directory = λ path. there;
  makes = λ path. true;
}

abbrev before : Disk
before = record {
  content = λ path. some (codes "CERTLABL('longer')");
  fails = λ operation path. false;
}

abbrev link : Text
link = codes "/run/15-tls.mqsc"

processed :
    (process_template_file templates
      (codes "t.tpl")
      link
      ((codes "label", codes "CERTLABL('qm')") ∷ [])
      before).1
    ≡ none
unfolding process_template_file
processed = refl

process_template_file-overwrites_example :
    or_empty (
      (process_template_file templates
          (codes "t.tpl")
          link
          ((codes "label", codes "CERTLABL('qm')") ∷ [])
          before).0.content
        link)
    ≡ overwrite
        (output (templates.parse (codes "t.tpl")) ((codes "label", codes "CERTLABL('qm')") ∷ []))
        (or_empty (before.content link))
process_template_file-overwrites_example =
    process_template_file-overwrites templates (codes "t.tpl") link
      ((codes "label", codes "CERTLABL('qm')") ∷ []) before processed

-- The end of the old text is left.
left_over :
    overwrite (codes "CERTLABL('qm')") (codes "CERTLABL('longer')") ≡ codes "CERTLABL('qm')er')"
unfolding overwrite
left_over = refl
