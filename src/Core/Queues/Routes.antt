-- ===== src/Core/Queues/Routes.antt =====
-- A queue to which the core routes a message is among those that the core generates for a worker.
use media_shuttle.Prelude.{
  ◌≡◌, refl, Bool, true, false, inl, inr, none, some, List, [], ◌∷◌, ◌++◌, map, In, In-append_right,
  In-map, if◌then◌else◌, not, ◌&&◌,
}
use mathlib.Core.List.{append_assoc}
use media_shuttle.Py.Text.{Text, str, upper, or_text, is_empty, join, split, strip_items, strip}
use media_shuttle.Core.Env.{Env}
use media_shuttle.Core.Model.{SourceSite, site_value, default_site_queue_suffixes}
use media_shuttle.Core.Queues.{
  download_queue_for_site, generate_download_queue_names, download_queue_prefix, csv_env,
  upload_queue_prefix, upload_affinity_enabled, upload_queue_for_target,
  generate_upload_queue_names, resolve_owner_node, normalize_owner_node, node_name,
}
use media_shuttle.Core.Queues.Nodes.{normalize_owner_node_idempotent}

site_suffixes :
    map upper (strip_items (split b',' (join (str ",") default_site_queue_suffixes)))
    ≡ default_site_queue_suffixes
unfolding strip_items split join default_site_queue_suffixes upper strip
site_suffixes = refl

site_upper :
    (site : SourceSite) → upper (or_text (site_value site) (str "GENERIC")) ≡ site_value site
unfolding upper site_value
site_upper SourceSite.gofile = refl
site_upper _ = refl

site_listed : (site : SourceSite) → In (site_value site) default_site_queue_suffixes
unfolding default_site_queue_suffixes
site_listed SourceSite.gofile = inl refl
site_listed SourceSite.bunkr = inr (inl refl)
site_listed SourceSite.cyberdrop = inr (inr (inl refl))
site_listed SourceSite.cyberfile = inr (inr (inr (inl refl)))
site_listed SourceSite.filester = inr (inr (inr (inr (inl refl))))
site_listed SourceSite.pixeldrain = inr (inr (inr (inr (inr (inl refl)))))
site_listed SourceSite.gd = inr (inr (inr (inr (inr (inr (inl refl))))))
site_listed SourceSite.mega = inr (inr (inr (inr (inr (inr (inr (inl refl)))))))
site_listed SourceSite.mediafire = inr (inr (inr (inr (inr (inr (inr (inr (inl refl))))))))
site_listed SourceSite.saint = inr (inr (inr (inr (inr (inr (inr (inr (inr (inl refl)))))))))
site_listed SourceSite.transferit =
    inr (inr (inr (inr (inr (inr (inr (inr (inr (inr (inl refl))))))))))
site_listed SourceSite.turbo =
    inr (inr (inr (inr (inr (inr (inr (inr (inr (inr (inr (inl refl)))))))))))
site_listed SourceSite.coomer =
    inr (inr (inr (inr (inr (inr (inr (inr (inr (inr (inr (inr (inl refl))))))))))))
site_listed SourceSite.ytdl =
    inr (inr (inr (inr (inr (inr (inr (inr (inr (inr (inr (inr (inr (inl refl)))))))))))))
site_listed SourceSite.generic =
    inr (inr (inr (inr (inr (inr (inr (inr (inr (inr (inr (inr (inr (inr (inl refl))))))))))))))

module _ {W : Type 0} (env : Env W) where
  -- With the default list of sites, the queue of every known site is among the generated ones.
  pub download_queue_for_site-In :
      (site : SourceSite)
      → env.getenv (str "MEDIA_SHUTTLE_SITE_QUEUE_SUFFIXES") ≡ none
      → In (download_queue_for_site env (site_value site)) (generate_download_queue_names env)
  unfolding download_queue_for_site generate_download_queue_names csv_env
  download_queue_for_site-In site unset =
      rw (unset, site_suffixes, site_upper site)
        (In-map (λ s. download_queue_prefix env ++ (str "@" ++ s)) (site_value site)
          default_site_queue_suffixes (site_listed site))

  resolve_owner_node_normal :
      normalize_owner_node (some (resolve_owner_node env)) ≡ resolve_owner_node env
  unfolding resolve_owner_node
  resolve_owner_node_normal = normalize_owner_node_idempotent (some (node_name env))

  abbrev pub upload_targets : List Text
  upload_targets = csv_env env (str "MEDIA_SHUTTLE_UPLOAD_QUEUE_SUFFIXES") (str "RCLONE,TELEGRAM")

  abbrev upload_queue : Text → Text
  upload_queue t = upload_queue_prefix env ++ (str "@" ++ t)

  abbrev own_queue : Text → Text → Text
  own_queue owner t = upload_queue_prefix env ++ (str "@" ++ (t ++ (str "@" ++ owner)))

  own_queue_lem : (owner t : Text) → upload_queue t ++ (str "@" ++ owner) ≡ own_queue owner t
  own_queue_lem owner t = append_assoc (upload_queue_prefix env) (str "@" ++ t) (str "@" ++ owner)

  upload_routes :
      (affinity : Bool) (owner t : Text)
      → In t upload_targets
      → In
          (if not (is_empty owner) && affinity
            then upload_queue t ++ (str "@" ++ owner)
            else upload_queue t)
          (if affinity && not (is_empty owner)
            then map upload_queue upload_targets ++ map (own_queue owner) upload_targets
            else map upload_queue upload_targets)
  upload_routes true [] t h = In-map upload_queue t upload_targets h
  upload_routes true (c ∷ owner) t h = rw (own_queue_lem (c ∷ owner) t) (
      In-append_right _ (map upload_queue upload_targets) _
        (In-map (own_queue (c ∷ owner)) t upload_targets h))
  upload_routes false [] t h = In-map upload_queue t upload_targets h
  upload_routes false (c ∷ owner) t h = In-map upload_queue t upload_targets h

  -- The queue of an upload that names the node on which its file lies is among those that are
  -- generated on that node, for every target among the configured ones, with or without affinity.
  pub upload_queue_for_target-In :
      (target : Text)
      → In (upper (or_text target (str "RCLONE"))) upload_targets
      → In
          (upload_queue_for_target env target (some (resolve_owner_node env)))
          (generate_upload_queue_names env)
  unfolding upload_queue_for_target generate_upload_queue_names
  upload_queue_for_target-In target h =
      rw resolve_owner_node_normal
        (upload_routes (upload_affinity_enabled env) (resolve_owner_node env) _ h)
