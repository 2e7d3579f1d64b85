-- ===== src/Access.antt =====
-- Who may see what: the identity's claims, the ranked classification levels, the tags of a
-- document, and the filter that every query carries (services/common/common).
pub mod Claims
pub mod Levels
pub mod Metadata
pub mod Payload
pub mod Filter
pub mod Versioning
