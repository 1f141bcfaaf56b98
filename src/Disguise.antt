-- ===== src/Disguise.antt =====
-- agent-rust/src/disguise/mod.rs: the paths at which the agent looks like a blog. The page's text is
-- a parameter.
use live_cdn.Common.{
  ℕ, Bool, ◌||◌, Option, none, some, List, [], ◌∷◌, ◌++◌, if◌then◌else◌, codes, same, contains,
  starts_with, ends_with,
}

pub record Response : Type 0 where
  pub status : ℕ
  pub headers : List (List ℕ × List ℕ)
  pub body : List ℕ

-- The prefix is kept and never read.
pub record DisguiseRouter : Type 0 where
  pub prefix : List ℕ

pub new_router : Option (List ℕ) → DisguiseRouter
new_router none = record { prefix = codes "/" }
new_router (some prefix) = record { prefix = prefix }

abbrev blog_paths : List (List ℕ)
blog_paths = codes "/" ∷ codes "/about" ∷ codes "/archive" ∷ codes "/blog" ∷ []

abbrev feed_paths : List (List ℕ)
feed_paths = codes "/feed" ∷ codes "/rss.xml" ∷ []

unfoldable pub is_disguise_path : List ℕ → Bool
is_disguise_path path =
    contains (blog_paths ++ feed_paths ++ codes "/favicon.ico" ∷ []) path
    || (starts_with path (codes "/static/")
        || (starts_with path (codes "/assets/")
            || (ends_with path (codes ".css")
                || (ends_with path (codes ".js")
                    || (ends_with path (codes ".png") || ends_with path (codes ".jpg"))))))

abbrev rss : List ℕ
rss =
    codes
      "<?xml version=\"1.0\" encoding=\"UTF-8\"?><rss version=\"2.0\"><channel><title>My Blog</title><link>https://example.com</link><description>A personal blog</description></channel></rss>"

abbrev content_type : List ℕ
content_type = codes "Content-Type"

unfoldable pub serve_disguise : List ℕ → List ℕ → Option Response
serve_disguise blog path =
    if contains blog_paths path
    then some (record {
      status = 200;
      headers =
          (content_type, codes "text/html; charset=utf-8")
          ∷ (codes "Cache-Control", codes "public, max-age=3600")
          ∷ [];
      body = blog;
    })
    else if contains feed_paths path
    then some (record {
      status = 200;
      headers = (content_type, codes "application/rss+xml") ∷ [];
      body = rss;
    })
    else if same path (codes "/favicon.ico")
    then some (record { status = 204; headers = []; body = [] })
    else none
